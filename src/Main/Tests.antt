-- ===== src/Main/Tests.antt =====
-- A database with two agents that are offline.
use watched_back.Base.{ℕ, ◌≡◌, refl, String, Bool, false, none, List, [], ◌∷◌, pos}
use watched_back.World.{Outcome, returned, threw, undefined, World}
use watched_back.Monad.{run}
use watched_back.Monad.Gives.{Gives}
use watched_back.Json.{Jsoncpp}
use watched_back.TestEnv.{agents_env}
use watched_back.TestJson.{test_json, nothing}
use watched_back.Ressource.Parse.{Manager}
use watched_back.AgentClient.{AgentClient}
use watched_back.Main.{Running, serve}

abbrev J : Jsoncpp
J = record test_json { as_int = λ v. returned (pos 0); as_string = λ v. returned "" }

abbrev start : World
start = record { trace = []; conn = λ p. none }

abbrev no_files : String → Bool
no_files f = false

abbrev own_address : ℕ → ℕ
own_address id = 10

abbrev as_it_was : AgentClient J → AgentClient J
as_it_was a = a

abbrev manager : Manager
manager = record { address = 3; known = [] }

abbrev started_of : Outcome (Running J manager nothing no_files own_address as_it_was) → List ℕ
started_of (returned (m, started)) = started
started_of (threw x) = []
started_of undefined = []

-- Two rounds, and between them a round of the second agent's thread: both threads are started once.
starts_both :
    started_of
      (run
        (serve J manager nothing no_files own_address as_it_was "" "back" "back.json" 1 2
          ((2 ∷ []) ∷ []))
        agents_env
        start).0
    ≡ 1 ∷ 2 ∷ []
unfolding run serve watched_back.AgentManager.init watched_back.DbTools.Get.get_backend
    watched_back.DbTools.ensured watched_back.DbTools.with_connection watched_back.DbTools.grab
    watched_back.DbTools.keep_conn watched_back.DbTools.set_conn
    watched_back.DbTools.Have.have_backend watched_back.DbTools.counted
    watched_back.DbTools.first_answer watched_back.DbTools.is_positive watched_back.DbTools.found_id
    watched_back.DbTools.as_id watched_back.AgentManager.update_agents
    watched_back.AgentManager.find_agents watched_back.AgentManager.find_agent
    watched_back.AgentManager.add_agent watched_back.AgentClient.Api.init_agent
    watched_back.AgentClient.Api.read_settings watched_back.AgentClient.Api.read_setting
    watched_back.HttpClient.construct watched_back.HttpClient.setting
    watched_back.AgentClient.Api.update_ready watched_back.HttpClient.get_json
    watched_back.HttpClient.fetch watched_back.HttpClient.request
    watched_back.HttpClient.read_answer watched_back.AgentClient.Api.update_api
    watched_back.AgentClient.Thread.thread_round watched_back.AgentClient.Collect.collect
    watched_back.Main.agent_round watched_back.Main.start watched_back.AgentManager.start_threads
    watched_back.Main.main_round watched_back.DbTools.release
starts_both = refl
