-- ===== src/Main/Boot.antt =====
-- The start of `main` in src/backend.cpp: the objects in the order of their construction, with the
-- sections of the configuration that each is given.
use watched_back.Base.{ℕ, String, Option, List}
use watched_back.Monad.{M, pure, lift, ◌>>=◌}
use watched_back.Json.{Jsoncpp}
use watched_back.DbPool.{DbPool, construct as construct_pool}
use watched_back.Log.{Log, construct as construct_log}
use watched_back.Alerter.Plugins.{DirEntry, construct as construct_alerters}
use watched_back.Config.{Build, Config, construct, get_db, get_log, get_alerter, save}

module _ (J : Jsoncpp) where
  pub record Backend : Type 0 where
    pub config : Config J
    pub pool : DbPool
    pub log : Log J
    pub alerters : List String

  -- `std::make_shared<dbPool>(cfg->getDB())`
  unfoldable pub make_pool : Config J → M (Config J × DbPool)
  make_pool c = do
    d ← get_db J c
    section ← lift (J.at d.data_ "db")
    pool ← construct_pool J section
    pure (d, pool)

  -- `std::make_shared<log>(cfg->getLog())`. The log completes its section of the document.
  unfoldable pub make_log : Build → Config J → M (Config J × Log J)
  make_log build c = do
    d ← get_log J c
    section ← lift (J.at d.data_ "log")
    log ← construct_log J build.log_file section
    doc ← lift (J.set d.data_ "log" log.cfg)
    pure (record d { data_ = doc }, log)

  -- `std::make_shared<alerterManager>(db, l, cfg->getAlerter())`. The manager completes its section,
  -- too. `this` is its address; what the directories hold is an argument.
  unfoldable pub make_alerters :
      Build
      → ℕ
      → (String → Option (List DirEntry))
      → (String → Option String)
      → List String
      → Config J
      → M (Config J × List String)
  make_alerters build this opendir dlopen factory c = do
    d ← get_alerter J c
    section ← lift (J.at d.data_ "alerters")
    (cfg, names) ←
        construct_alerters this opendir J dlopen factory build.dll_alert build.lua_alert section
    doc ← lift (J.set d.data_ "alerters" cfg)
    pure (record d { data_ = doc }, names)

  -- Up to the first `cfg->save()`.
  unfoldable pub boot :
      Build
      → String
      → Option String
      → ℕ
      → (String → Option (List DirEntry))
      → (String → Option String)
      → List String
      → M (Backend × String × String)
  boot build fname file this opendir dlopen factory = do
    c ← construct J build fname file
    (with_db, pool) ← make_pool c
    (with_log, log) ← make_log build with_db
    (config, names) ← make_alerters build this opendir dlopen factory with_log
    let (name, text) = save J config
    pure (record { config = config; pool = pool; log = log; alerters = names }, name, text)
