-- ===== src/AgentClient/Tests.antt =====
-- An agent that reports one service, over a server that keeps no rows but accepts statements.
use watched_back.Base.{
  ◌+◌, ◌≤◌, ◌≡◌, refl, String, true, false, some, none, List, [], ◌∷◌, length, map, arith, str_eq,
  ◌||◌, ◌⊎◌, if◌then◌else◌, pos,
}
use watched_back.World.{World, Env, add_event, executed, Outcome, returned}
use watched_back.Monad.{run}
use watched_back.Json.{Jsoncpp}
use watched_back.Json.Read.{walk}
use watched_back.TestEnv.{hosts_env}
use watched_back.TestJson.{zero_double}
use watched_back.DbTools.{
  ensured, found_id, as_id, keep_conn, set_conn, release, with_connection, grab, counted,
  first_answer, is_positive,
}
use watched_back.DbTools.Balance.{Balanced, grabs, releases}
use watched_back.DbTools.Have.{
  have_process_status, have_socket_status, have_host, have_service, have_service_type,
}
use watched_back.DbTools.Get.{get_host, get_service, get_service_type}
use watched_back.AgentClient.Service.{collect_service}
use watched_back.Alerter.Known.{Proper}
use watched_back.Ressource.Keeps.{Heard}
use watched_back.Ressource.Parse.{Manager}
use watched_back.HttpClient.{get_json, fetch, request, read_answer}
use watched_back.AgentClient.{AgentClient}
use watched_back.AgentClient.Service.{
  Status, collect_process, collect_socket, count_socket, collect_status,
}
use watched_back.AgentClient.Collect.{collect_round, collect_services, collect_all, collect}
use watched_back.AgentClient.Counter.{failed_missing, counter_query, update_counter}
use watched_back.AgentClient.Stored.{update_counter-query}
use watched_back.AgentClient.Status.{collect_status-counts}
use watched_back.AgentClient.Effects.{collect_services-Proper, collect-Heard, collect_round-returns}

-- A report: an object, a list of parts, a text, or nothing.
data Report : Type 0 where
  absent : Report
  words : String → Report
  part : String → Report
  parts : List String → Report
  status_of : List String → List String → Report
  service : List String → List String → Report

abbrev member_of : Report → String → Report
member_of (service ps ss) k =
    if str_eq k "status"
    then status_of ps ss
    else if str_eq k "services" || str_eq k "httpd"
    then service ps ss
    else absent
member_of (status_of ps ss) k =
    if str_eq k "process" then parts ps else if str_eq k "sockets" then parts ss else absent
member_of (part state) k = if str_eq k "status" then words state else words "httpd"
member_of _ k = absent

abbrev elements_of : Report → List Report
elements_of (parts ps) = map part ps
elements_of _ = []

abbrev text_of : Report → Outcome String
text_of (words s) = returned s
text_of _ = returned ""

abbrev report_json : Jsoncpp
report_json = record {
  Value = Report;
  null = absent;
  empty_object = absent;
  of_string = words;
  of_int = λ i. absent;
  of_bool = λ b. absent;
  parse = λ s. returned (service ("ok" ∷ []) []);
  unparsed = λ old s. absent;
  print = λ v. "";
  is_member = λ v k. returned false;
  at = λ v k. returned (member_of v k);
  set = λ v k x. returned v;
  is_null = λ v. false;
  equals = λ v s. false;
  keys = λ v. "httpd" ∷ [];
  elements = elements_of;
  as_string = text_of;
  as_c_string = text_of;
  as_bool = λ v. returned false;
  as_int = λ v. returned (pos 0);
  as_uint = λ v. returned 0;
  as_double = λ v. returned zero_double;
  as_float = λ v. returned zero_double;
}

-- The server knows no failure yet.
abbrev empty_env : Env
empty_env = record hosts_env {
  store = λ t q. returned (some (("0" ∷ []) ∷ []));
  request = λ t m p. returned "{}";
}

abbrev connected : World
connected = record { trace = []; conn = λ p. some 7 }

abbrev idle : World
idle = record { trace = []; conn = λ p. none }

abbrev counted_status : Status
counted_status = record { ok = 1; failed = 2; nfailed = 2 }

one_fine_two_failed :
    (run
      (collect_status report_json 1 4 zero_double (service ("ok" ∷ "ko" ∷ []) ("ko" ∷ [])))
      empty_env
      connected).0
    ≡ returned counted_status
unfolding run collect_status walk collect_process have_process_status counted with_connection grab
    first_answer is_positive collect_socket count_socket have_socket_status
one_fine_two_failed = refl

collect_status-counts_example :
    (1 + 2
      ≡ length (elements_of (parts ("ok" ∷ "ko" ∷ []))) + length (elements_of (parts ("ko" ∷ []))))
    × (2 ≤ 2)
collect_status-counts_example =
    collect_status-counts report_json 1 4 zero_double (service ("ok" ∷ "ko" ∷ []) ("ko" ∷ []))
      (status_of ("ok" ∷ "ko" ∷ []) ("ko" ∷ [])) (parts ("ok" ∷ "ko" ∷ [])) (parts ("ko" ∷ []))
      empty_env connected counted_status refl refl refl (ground arith) one_fine_two_failed

abbrev nobody : Manager
nobody = record { address = 2; known = [] }

abbrev agent : AgentClient report_json
agent = record {
  address = 1;
  id = 9;
  ready = true;
  active = true;
  since = zero_double;
  collect_count = 0;
  client = record { ok = 0; failed = 0; parse = 0; use_ssl = false; base_url = "web:9080" };
  baseurl = "web:9080";
  api = absent;
  pool_freq = 60;
  ressources = [];
}

collect_services-Proper_example :
    Proper []
      (run
        (collect_services report_json nobody 1 zero_double (service ("ko" ∷ []) []))
        empty_env
        connected).1
collect_services-Proper_example =
    collect_services-Proper report_json nobody 1 zero_double (service ("ko" ∷ []) []) empty_env
      connected (record { all = tt })

collect-Heard_example : Heard [] (run (collect report_json nobody absent agent) empty_env idle).1
collect-Heard_example =
    collect-Heard report_json nobody absent agent empty_env idle (record { all = tt })

idle-Balanced : Balanced 1 idle
idle-Balanced = record { balance = refl }

round_ends : (run (collect_round report_json nobody absent agent) empty_env idle).0 ≡ returned tt
unfolding run collect_round collect get_json fetch request read_answer with_connection grab
    keep_conn set_conn collect_all collect_services release collect_service walk get_host ensured
    have_host counted first_answer is_positive found_id as_id get_service have_service
    get_service_type have_service_type collect_status collect_process
round_ends = refl

collect_round-returns_example :
    let v = (run (collect_round report_json nobody absent agent) empty_env idle).1 in
    (v.conn 1 ≡ none) × (grabs 1 v.trace ≡ releases 1 v.trace)
collect_round-returns_example =
    collect_round-returns report_json nobody absent agent empty_env idle idle-Balanced round_ends

counter_sent :
    (run (update_counter 1 9 0 3 0) empty_env connected ≡ (
      returned tt,
      add_event connected (executed (counter_query 9 zero_double (failed_missing 0 3 0) 0 0)),
    ))
    × ((failed_missing 0 3 0).0 + 0 ≡ 3)
    × (((failed_missing 0 3 0).0 ≡ 0)
        ⊎ (((failed_missing 0 3 0).1 ≡ 0) × (agent.collect_count ≡ 0)))
counter_sent =
    update_counter-query 1 9 0 3 0 7 empty_env connected refl (record { takes = λ t q. refl })
