-- ===== src/Main/Threads.antt =====
-- The threads of the backend over any number of rounds of `main`.
use watched_back.Base.{ℕ, ◌≡◌, String, Bool, true, some, List}
use watched_back.Monad.Gives.{Gives}
use watched_back.Json.{Jsoncpp}
use watched_back.Ressource.Parse.{Manager}
use watched_back.StatAggregator.{StatAggregator}
use watched_back.AgentClient.{AgentClient}
use watched_back.AgentManager.{agent_of, AgentManager}
use watched_back.AgentManager.Kept.{Kept}
use watched_back.AgentManager.Started.{OneEach}
use watched_back.Main.{Running}

module _ (J : Jsoncpp) where
  -- Every agent that is ready has its thread.
  abbrev pub AllRun : List (ℕ × AgentClient J) → Type 0
  AllRun agents =
      (id : ℕ) (a : AgentClient J) → agent_of agents id ≡ some a → a.ready ≡ true → a.active ≡ true

module _ (J : Jsoncpp) (alert : Manager) (cfg : J.Value) (exists : String → Bool)
    (address_of : ℕ → ℕ) (torn : AgentClient J → AgentClient J) where
  -- One thread for each agent that is ready, and no other.
  abbrev pub WellRun : Running J alert cfg exists address_of torn → Type 0
  WellRun (m, started) = OneEach J started m.agents × AllRun J m.agents
