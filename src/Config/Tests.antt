-- ===== src/Config/Tests.antt =====
-- The configuration of a first start that is read again.
use watched_back.Base.{◌≡◌, refl, none, some, All, [], ◌∷◌, List}
use watched_back.World.{returned, World}
use watched_back.Monad.{run}
use watched_back.Monad.Gives.{Gives}
use watched_back.Monad.Returns.{Returns}
use watched_back.Json.{Jsoncpp}
use watched_back.TestEnv.{hosts_env}
use watched_back.Config.{
  Build, Config, Access, aggregate, alerters, log_section, db, save, configure,
}
use watched_back.Config.Settled.{Grows}
use watched_back.Config.Reload.{Constructed, Accessed, configure-keeps}
use watched_back.Config.Again.{configure-save}
use watched_back.Config.Total.{BothReady, configure-Returns}
use watched_back.TestDoc.{
  build, backend_made, db_made, Doc, object, no_members, member, object_is, doc_json, doc_json-Sets,
  doc_objects,
}

abbrev calls : {J : Jsoncpp} → List (Access J)
calls = db ∷ log_section ∷ alerters ∷ aggregate ∷ []

abbrev start : World
start = record { trace = []; conn = λ p. none }

-- What a first start, without a file, makes.
abbrev made : Doc
made = object (
    member "backend" (backend_made) (
      member "db" (db_made) (
        member "log" (object no_members) (
          member "alerters" (object no_members)
            (member "aggregate" (object no_members) no_members)))))

abbrev J : Jsoncpp
J = doc_json made

-- The file is written, and read by the next start.
abbrev config : Config J
config = record { data_ = made; fname = "back.json" }

first_start : (run (configure J build "back.json" none calls) hosts_env start).0 ≡ returned config
unfolding run configure watched_back.Config.construct watched_back.Config.read_file
    watched_back.Config.complete watched_back.Config.first_setting watched_back.Config.put_setting
    watched_back.Config.default_setting watched_back.Config.access watched_back.Config.get_db
    watched_back.Config.open_section watched_back.Config.get_section
first_start = refl

configure-save_example :
    run (configure J build "back.json" (some "saved") calls) hosts_env start
    ≡ (returned config, start)
configure-save_example =
    configure-save J build "back.json" none calls config hosts_env hosts_env start start
      (doc_json-Sets made) first_start refl

configure-keeps_example :
    Gives hosts_env
      (λ c. Grows J made c.data_ × Constructed J build c.data_ × All (Accessed J c.data_) calls)
      (configure J build "back.json" (some "saved") calls)
configure-keeps_example =
    configure-keeps J build "back.json" (some "saved") made calls hosts_env (doc_json-Sets made)
      refl

configure-Returns_example :
    Returns hosts_env
      (λ c. BothReady J (doc_objects made) c.data_)
      (configure J build "back.json" (some "saved") calls)
configure-Returns_example =
    configure-Returns J (doc_objects made) build "back.json" (some "saved") made calls hosts_env
      (doc_json-Sets made) refl
      (
        record {
          object = object_is _;
          value = backend_made;
          at = refl;
          value_object = object_is _;
        },
        record { object = object_is _; value = db_made; at = refl; value_object = object_is _ },
      )
