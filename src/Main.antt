-- ===== src/Main.antt =====
-- `main` of src/backend.cpp: the agents that the database has, a thread for each, and the rounds that
-- look for new ones. Between two of them the threads run rounds of their own.
pub mod Threads
pub mod Boot
pub mod Runs
pub mod Restart
pub mod Saved
mod BootTests
mod Tests
use watched_back.Base.{
  ℕ, String, Bool, true, Option, none, some, List, [], ◌∷◌, ◌++◌, ◌==◌, if◌then◌else◌,
}
use watched_back.Monad.{M, pure, lift, ◌>>=◌, cases, fold_m}
use watched_back.Json.{Jsoncpp}
use watched_back.Json.Read.{int_at}
use watched_back.Ressource.Parse.{Manager}
use watched_back.AgentClient.{AgentClient}
use watched_back.AgentClient.Thread.{thread_round}
use watched_back.AgentManager.{
  agent_of, AgentManager, init, update_agents, start_threads, new_manager,
}

-- The agent of a thread, after a round.
abbrev pub set_agent : {A : Type 0} → List (ℕ × A) → ℕ → A → List (ℕ × A)
set_agent [] k a = []
set_agent ((j, b) ∷ m) k a =
    let rest = set_agent m k a in if j == k then (j, a) ∷ m else (j, b) ∷ rest

module _ (J : Jsoncpp) (alert : Manager) (cfg : J.Value) (exists : String → Bool)
    (address_of : ℕ → ℕ) (torn : AgentClient J → AgentClient J) where
  -- The map, and the ids whose threads have been started, the newest first.
  abbrev pub Running : Type 0
  Running = AgentManager J × List ℕ

  -- A round of the thread of an agent, if it has one.
  unfoldable pub agent_round : AgentManager J → ℕ → M (AgentManager J)
  agent_round m id = cases (agent_of m.agents id) (pure m) λ a.
      if a.active
      then (do
        b ← thread_round J alert cfg exists a
        pure (record m { agents = set_agent m.agents id b }))
      else pure m

  unfoldable pub start : Running → M Running
  start (m, started) = do (n, ids, aggregates) ← lift (start_threads J m); pure (n, ids ++ started)

  -- The body of `while (true)`. `schedule` names the agents whose threads do a round while `main`
  -- sleeps, in order.
  unfoldable pub main_round : Running → List ℕ → M Running
  main_round (m, started) schedule = do
    seconds ← int_at J cfg "pool_freq"
    worked ← fold_m schedule m agent_round
    updated ← update_agents J cfg exists address_of torn worked
    start (updated, started)

  -- `main` from `am->init` on, for as many rounds as there are schedules.
  unfoldable pub serve : String → String → String → ℕ → ℕ → List (List ℕ) → M Running
  serve host me full this aggregator schedules = do
    m ← init J cfg exists address_of torn host me full aggregator (new_manager J this)
    first ← start (m, [])
    fold_m schedules first main_round
