-- ===== src/HttpClient/Tests.antt =====
-- A client of one agent, whose first request fails.
use watched_back.Base.{◌%◌, ◌^◌, ◌+◌, ◌≡◌, refl, String, true, false, [], ◌∷◌, none}
use watched_back.World.{
  Env, World, Trace, requested, logged, Outcome, returned, threw, std_exception, add_event,
}
use watched_back.Monad.{run}
use watched_back.TestEnv.{hosts_env}
use watched_back.TestJson.{nothing, sample, test_json}
use watched_back.HttpClient.{HttpClient, reset_count, request, fetch, read_answer, get_json}
use watched_back.HttpClient.Counts.{count, poll, polls, polls-reset_count}
use watched_back.HttpClient.Retry.{asked, get_json_retried, get_json_failed}

abbrev agent : HttpClient
agent = record { ok = 0; failed = 0; parse = 0; use_ssl = false; base_url = "web:9080" }

abbrev flaky : Trace → Outcome String
flaky (requested m p ∷ []) = threw (std_exception "read_until: End of file")
flaky _ = returned "{}"

abbrev flaky_env : Env
flaky_env = record hosts_env { request = λ t m p. flaky t }

abbrev silent : World
silent = record { trace = []; conn = λ p. none }

polled :
    (run (polls test_json nothing ("/a" ∷ "/b" ∷ []) (agent, nothing, [])) flaky_env silent).0
    ≡ returned (record agent { ok = 2 }, sample [], true ∷ true ∷ [])
unfolding run polls poll get_json fetch request read_answer
polled = refl

polls-reset_count_example :
    (2 ≡ count true (true ∷ true ∷ []) % 2 ^ 32)
    × ((0 + 0) % 2 ^ 32 ≡ count false (true ∷ true ∷ []) % 2 ^ 32)
    × ((reset_count agent).0 ≡ (0, 0, 0))
polls-reset_count_example =
    polls-reset_count test_json nothing ("/a" ∷ "/b" ∷ []) flaky_env silent agent
      (record agent { ok = 2 }) nothing (sample []) (true ∷ true ∷ []) refl polled

get_json_retried_example :
    run (get_json test_json nothing agent "/all" nothing) flaky_env silent
    ≡ run (get_json test_json nothing agent "/all" nothing) flaky_env (asked agent "/all" silent)
get_json_retried_example =
    get_json_retried test_json nothing agent "/all" nothing flaky_env silent
      (std_exception "read_until: End of file") "{}" refl refl refl

get_json_failed_example : run (get_json test_json nothing agent "/all" nothing) hosts_env silent ≡ (
  returned (record agent { failed = 1 }, nothing, false),
  add_event
      (asked agent "/all" (asked agent "/all" silent))
      (logged 2 "HttpClient::getJSON" "Failed to get web:9080/all after a retry:offline"),
)
get_json_failed_example =
    get_json_failed test_json nothing agent "/all" nothing hosts_env silent
      (std_exception "offline") (std_exception "offline") refl refl refl
