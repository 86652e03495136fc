-- ===== src/Main/BootTests.antt =====
-- Starts with no directory of alerters: over a file with a section for the log, and without a file.
use watched_back.Base.{ℕ, ◌≡◌, refl, String, Option, none, some, List, [], str_eq}
use watched_back.World.{Outcome, returned, threw, undefined, World}
use watched_back.Monad.{run}
use watched_back.Monad.Gives.{Gives}
use watched_back.Json.{Jsoncpp}
use watched_back.TestEnv.{hosts_env}
use watched_back.TestDoc.{
  absent, Doc, words, object, no_members, member, doc_json, doc_json-Sets, build, backend_made,
  db_made,
}
use watched_back.Alerter.Plugins.{DirEntry}
use watched_back.Config.{Config}
use watched_back.Main.Restart.{Plugins, boot-again}
use watched_back.Main.Runs.{Keeps}
use watched_back.Log.{Log}
use watched_back.Main.Boot.{Backend, boot}
use watched_back.Main.Saved.{Saved, boot-Saved}

-- The file asks for a level in small letters, and has a comment of its own.
abbrev old_file : Doc
old_file = object (
    member "log"
      (object (member "level" (words "warn") (member "file" (words "/tmp/back.log") no_members)))
      no_members)

abbrev J : Jsoncpp
J = doc_json old_file

abbrev start : World
start = record { trace = []; conn = λ p. none }

abbrev no_dirs : String → Option (List DirEntry)
no_dirs s = none

abbrev loads : String → Option String
loads s = none

abbrev parts_of : Outcome (Backend J × String × String) → Option (ℕ × ℕ × String)
parts_of (returned (b, name, text)) = some (b.pool.pool_size, b.log.level, name)
parts_of (threw x) = none
parts_of undefined = none

starts_over_file :
    parts_of (run (boot J build "back.json" (some "saved") 1 no_dirs loads []) hosts_env start).0
    ≡ some (32, 2, "back.json")
unfolding run boot watched_back.Main.Boot.make_pool watched_back.Main.Boot.make_log
    watched_back.Config.construct watched_back.Config.read_file watched_back.Config.complete
    watched_back.Config.first_setting watched_back.Config.put_setting
    watched_back.Config.default_setting watched_back.Config.get_db watched_back.Config.open_section
    watched_back.Config.get_section watched_back.DbPool.construct watched_back.Log.construct
    watched_back.Log.with_default watched_back.Log.level_of watched_back.Alerter.Plugins.construct
    watched_back.Alerter.Plugins.add_all watched_back.Main.Boot.make_alerters
    watched_back.Alerter.Plugins.load_cpp watched_back.Alerter.Plugins.load_scripts
    watched_back.Base.to_upper
starts_over_file = refl

boot-Saved_example :
    Gives hosts_env
      (Saved J build "back.json" old_file)
      (boot J build "back.json" (some "saved") 1 no_dirs loads [])
boot-Saved_example =
    boot-Saved J build "back.json" (some "saved") old_file 1 no_dirs loads [] hosts_env
      (doc_json-Sets old_file) refl

-- What a first start makes, and a JSON that reads it back.
abbrev log_made : Doc
log_made =
    object (member "file" (words build.log_file) (member "level" (words "NOTICE") no_members))

abbrev alerters_made : Doc
alerters_made = object (
    member "alerter_cpp" (words build.dll_alert)
      (member "alerter_lua" (words build.lua_alert) no_members))

abbrev first_made : Doc
first_made = object (
    member "backend" backend_made
      (member "db" db_made (member "log" log_made (member "alerters" alerters_made no_members))))

abbrev K : Jsoncpp
K = doc_json first_made

abbrev backend : Backend K
backend = record {
  config = record { data_ = first_made; fname = "back.json" };
  pool = record { pool_size = 32; used_count = 0 };
  log = record { cfg = log_made; level = 3 };
  alerters = [];
}

abbrev no_plugins : Plugins
no_plugins = record { opendir = no_dirs; dlopen = loads; factory = [] }

first_start :
    (run (boot K build "back.json" none 1 no_dirs loads []) hosts_env start).0
    ≡ returned (backend, "back.json", "saved")
unfolding run boot watched_back.Main.Boot.make_pool watched_back.Main.Boot.make_log
    watched_back.Config.construct watched_back.Config.read_file watched_back.Config.complete
    watched_back.Config.first_setting watched_back.Config.put_setting
    watched_back.Config.default_setting watched_back.Config.get_db watched_back.Config.open_section
    watched_back.Config.get_section watched_back.DbPool.construct watched_back.Log.construct
    watched_back.Log.with_default watched_back.Log.level_of watched_back.Alerter.Plugins.construct
    watched_back.Alerter.Plugins.add_all watched_back.Main.Boot.make_alerters
    watched_back.Alerter.Plugins.load_cpp watched_back.Alerter.Plugins.load_scripts
    watched_back.Base.to_upper
first_start = refl

boot-again_example :
    Gives hosts_env
      (λ (b, name, text).
        (b.pool ≡ backend.pool)
        × (b.log.level ≡ backend.log.level)
        × Keeps K first_made b.config.data_)
      (boot K build "back.json" (some "saved") 2 no_dirs loads [])
boot-again_example =
    boot-again K build "back.json" none absent 1 2 no_plugins no_plugins backend "back.json" "saved"
      hosts_env hosts_env start (doc_json-Sets first_made) (λ s. refl) refl first_start refl
