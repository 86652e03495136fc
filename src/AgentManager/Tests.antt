-- ===== src/AgentManager/Tests.antt =====
-- A manager without agents, over a database with two that are offline.
use watched_back.Base.{ℕ, refl, String, Bool, false, [], ◌∷◌, pos}
use watched_back.World.{Row, returned}
use watched_back.Monad.Returns.{Returns}
use watched_back.Monad.Settles.{Reads, well, badly, Defined}
use watched_back.Json.{Jsoncpp}
use watched_back.TestEnv.{agents_env, cell, number_of}
use watched_back.TestJson.{test_json, nothing}
use watched_back.DbTools.Connected.{Lends}
use watched_back.AgentClient.{AgentClient}
use watched_back.AgentClient.Thread.{new_agent}
use watched_back.AgentClient.Offline.{HasSettings, Unanswered, init_agent-Returns}
use watched_back.AgentManager.{new_manager, update_agents}
use watched_back.AgentManager.Lists.{ListsOf, Starts, update_agents-ListsOf}

abbrev J : Jsoncpp
J = record test_json {
  as_int = λ v. returned (pos 0);
  as_string = λ v. returned "";
  as_bool = λ v. returned false;
}

abbrev no_files : String → Bool
no_files f = false

abbrev own_address : ℕ → ℕ
own_address id = 10

abbrev as_it_was : AgentClient J → AgentClient J
as_it_was a = a

nothing-HasSettings : HasSettings J nothing
nothing-HasSettings = record {
  member = λ k. nothing;
  reads = λ k. refl;
  text = λ k. ("", refl);
  flag = (false, refl);
}

agents_env-Unanswered : Unanswered agents_env
agents_env-Unanswered = record { reason = λ t m url. _; fails = λ t m url. refl }

cell-Defined : (r : Row) (i : ℕ) → Defined (cell r i)
cell-Defined [] i = badly _
cell-Defined (s ∷ r) ℕ.zero = well s tt
cell-Defined (s ∷ r) (ℕ.suc i) = cell-Defined r i

agents_env-Reads : Reads agents_env
agents_env-Reads = record { cells = cell-Defined; numbers = λ s. well _ tt }

agents_env-Lends : Lends agents_env
agents_env-Lends = record { connection = λ t. 7; lends = λ t. refl }

starts : (id : ℕ) → Starts J nothing no_files own_address as_it_was agents_env id
starts id =
    init_agent-Returns J nothing no_files (new_agent J 10 id) agents_env nothing-HasSettings
      agents_env-Unanswered agents_env-Reads agents_env-Lends λ t. well _ tt

abbrev first_number : Row → ℕ
first_number [] = 0
first_number (s ∷ r) = number_of s

update_agents-ListsOf_example :
    Returns agents_env
      (λ m. ListsOf [] m.agents (1 ∷ 2 ∷ []))
      (update_agents J nothing no_files own_address as_it_was (new_manager J 1))
update_agents-ListsOf_example =
    update_agents-ListsOf J nothing no_files own_address as_it_was (new_manager J 1)
      (("1" ∷ []) ∷ ("11" ∷ []) ∷ []) first_number nothing (pos 0) agents_env agents_env-Lends refl
      refl (λ t q. well _ tt) (λ t. refl)
      (("1", refl, refl, starts 1), (("11", refl, refl, starts 2), tt))
