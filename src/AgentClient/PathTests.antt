-- ===== src/AgentClient/PathTests.antt =====
-- An agent whose API has the load of its host, and one whose API has `/all` too.
use watched_back.Base.{
  true, ◌≡◌, refl, ◌≢◌, String, ◌<>◌, false, some, List, [], ◌∷◌, str_eq, arith,
}
use watched_back.World.{World, Env, returned}
use watched_back.Monad.{run}
use watched_back.Json.{Jsoncpp}
use watched_back.TestEnv.{hosts_env}
use watched_back.TestJson.{nothing, test_json, zero_double}
use watched_back.Alerter.{ResEvent}
use watched_back.Ressource.{
  Ressource, base_insert_of, init, load_rows, load_current, load_factory, read_event, update_defs,
}
use watched_back.DbTools.{
  with_connection, grab, counted, first_answer, is_positive, found_id, as_id, ensured,
}
use watched_back.DbTools.Have.{have_ressource, have_host}
use watched_back.DbTools.Get.{get_ressource_id, get_host}
use watched_back.Json.Read.{walk}
use watched_back.AgentClient.Tables.{create_tables}
use watched_back.AgentClient.Schema.{OnlySchema, create_tables-OnlySchema}
use watched_back.AgentClient.{AgentClient}
use watched_back.AgentClient.Api.{keep_client, rebuild}
use watched_back.AgentClient.Current.{AreCurrent, rebuild-AreCurrent}
use watched_back.DbTools.{release, set_conn}
use watched_back.DbTools.Have.{have_table, table_has_column}
use watched_back.AgentClient.Tables.{define_table, is_skipped, add_column}
use watched_back.AgentClient.Paths.{ressource_of}
use watched_back.AgentClient.Naming.{ressource_of-path}
use watched_back.AgentClient.Ressources.{
  Clients, create_ressource, register, tie, new_client, create_ressources,
}
use watched_back.AgentClient.Growth.{
  DistinctPaths, create_ressources-DistinctPaths, create_ressources-short,
}

abbrev load_path : String
load_path = "/system/cpu/load/history"

-- Each value reads as the text `x`, and has the one path as its key.
abbrev api_json : List String → Jsoncpp
api_json paths = record test_json {
  keys = λ v. paths;
  as_string = λ v. returned "x";
  is_member = λ v k. returned (str_eq k "get");
}

abbrev rows_env : Env
rows_env = record hosts_env { store = λ t q. returned (some (("1" ∷ []) ∷ [])) }

abbrev connected : World
connected = record { trace = []; conn = λ p. some 7 }

ressource_of-path_example :
    (ressource_of ("/" <> ("system/" <> "cpu/load" <> "/history")) ≡ returned ("host", "cpu/load"))
    × (ressource_of
          ("/" <> (("service/" <> ("h" <> ("ttpd" <> ("/" <> "cpu/load")))) <> "/history"))
        ≡ returned ("service", "cpu/load"))
ressource_of-path_example = ressource_of-path "cpu/load" "h" "ttpd" "cpu/load" refl refl

the_load : ressource_of load_path ≡ returned ("host", "cpu/load")
the_load = refl

abbrev load : Ressource
load = record {
  is_service = false;
  host_id = 1;
  res_id = 1;
  baseurl = load_path;
  table = "x";
  serv_name = "";
}

abbrev one_event : ResEvent
one_event = record { event_type = 1; property = "1"; oper = "1"; value = zero_double }

abbrev clients : Clients
clients =
    (
      load,
      record {
        def_keys = load_path ∷ [];
        base_insert = base_insert_of load (load_path ∷ []);
        event_factory = one_event ∷ [];
        current_events = (1, one_event) ∷ [];
      },
    )
    ∷ []

made :
    (run (create_ressources (api_json (load_path ∷ [])) 1 nothing []) rows_env connected).0
    ≡ returned clients
unfolding run create_ressources with_connection grab create_ressource register walk have_ressource
    counted first_answer is_positive get_ressource_id found_id as_id get_host ensured have_host tie
    new_client init load_rows load_current load_factory read_event update_defs
made = refl

create_ressources-DistinctPaths_example : DistinctPaths clients
create_ressources-DistinctPaths_example =
    create_ressources-DistinctPaths (api_json (load_path ∷ [])) 1 nothing [] clients rows_env
      connected tt made

create_ressources-short_example :
    (run (create_ressources (api_json (load_path ∷ "/all" ∷ [])) 1 nothing []) rows_env connected).0
    ≢ returned clients
create_ressources-short_example =
    create_ressources-short (api_json (load_path ∷ "/all" ∷ [])) 1 7 nothing nothing
      (load_path ∷ []) [] "/all" [] clients rows_env connected refl refl refl
      (record { rest = "all"; path = refl; no_slash = refl; short = ground arith })

-- No table is there yet.
abbrev bare_env : Env
bare_env = record hosts_env { store = λ t q. returned (some (("0" ∷ []) ∷ [])) }

create_tables-OnlySchema_example :
    OnlySchema (run (create_tables (api_json ("cpu" ∷ [])) 1 nothing) bare_env connected).1
create_tables-OnlySchema_example =
    create_tables-OnlySchema (api_json ("cpu" ∷ [])) 1 nothing bare_env connected
      (record { all = tt })

abbrev agent : Clients → AgentClient (api_json (load_path ∷ []))
agent cs = record {
  address = 1;
  id = 9;
  ready = true;
  active = false;
  since = zero_double;
  collect_count = 0;
  client = record { ok = 0; failed = 0; parse = 0; use_ssl = false; base_url = "web:9080" };
  baseurl = "web:9080";
  api = nothing;
  pool_freq = 60;
  ressources = cs;
}

rebuilt :
    (run (rebuild (api_json (load_path ∷ [])) nothing (agent [])) rows_env connected).0
    ≡ returned (agent clients)
unfolding run rebuild create_ressources with_connection grab create_ressource register walk
    have_ressource counted first_answer is_positive get_ressource_id found_id as_id get_host ensured
    have_host tie new_client init load_rows load_current load_factory read_event update_defs
    create_tables define_table is_skipped have_table add_column table_has_column keep_client release
    set_conn
rebuilt = refl

rebuild-AreCurrent_example : AreCurrent (load_path ∷ []) clients × DistinctPaths clients
rebuild-AreCurrent_example =
    rebuild-AreCurrent (api_json (load_path ∷ [])) nothing nothing (agent []) (agent clients)
      rows_env connected refl tt rebuilt
