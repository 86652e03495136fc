-- ===== src/Main/Saved.antt =====
-- What the backend runs with is what its configuration file says after the start.
use watched_back.Base.{ℕ, ℤ, to_u32, ◌≡◌, refl, sym, ap, ◌∙◌, subst, String, Option, List}
use watched_back.World.{returned, Env}
use watched_back.Monad.Gives.{Gives, pure-Gives, bind-Gives, bind_with-Gives, lift-Gives}
use watched_back.Json.{Jsoncpp}
use watched_back.DbPool.{DbPool, construct as construct_pool}
use watched_back.Log.{Log}
use watched_back.Log.Saved.{construct-Completed, Stays, Stays-trans, with_default-Gives}
use watched_back.Alerter.Plugins.{DirEntry, construct as construct_alerters}
use watched_back.Config.{Build, Config, access, alerters, db, log_section}
use watched_back.Config.Settled.{
  returned-injective, replace-Grows, Grows-trans, Sets, Grows, Grows-trans,
}
use watched_back.Config.Reload.{
  Constructed, Accessed, ReadsAs, construct-Gives, access-Gives, Grows-Constructed, same_reading,
}
use watched_back.Main.Boot.{Backend, make_pool, make_log, make_alerters, boot}
use watched_back.Main.Runs.{
  RunsBy, Started, Settled-value, logged-Keeps, logged-LevelOf, logged-AsksFor, Started-RunsBy,
  RunsBy-Grows,
}

module _ (J : Jsoncpp) where
  module _ {e : Env} where
    pool-Gives :
        (section : J.Value)
        → Gives e
            (λ pool.
              (v : J.Value) × (n : ℤ) × (J.at section "pool_size" ≡ returned v)
              × (J.as_int v ≡ returned n)
              × (pool ≡ record { pool_size = to_u32 n; used_count = 0 }))
            (construct_pool J section)
    unfolding construct_pool
    pool-Gives section =
        bind_with-Gives _ _ (lift-Gives (J.at section "pool_size")) λ v h.
          bind_with-Gives _ _ (lift-Gives (J.as_int v)) λ n k. pure-Gives _ (v, n, h, k, refl)

  module _ (sets : Sets J) {e : Env} where
    make_pool-Gives :
        (build : Build) (doc : J.Value) (c : Config J)
        → Grows J doc c.data_
        → Constructed J build c.data_
        → Gives e
            (λ (r : Config J × DbPool). Started J build doc r.0.data_ r.1 × (r.0.fname ≡ c.fname))
            (make_pool J c)
    unfolding make_pool access
    make_pool-Gives build doc c grows made =
        bind_with-Gives _ _ (access-Gives J sets c db) λ d (g, has, same).
          bind_with-Gives _ _ (lift-Gives (J.at d.data_ "db")) λ section h.
            bind_with-Gives _ _ (pool-Gives section) λ pool (v, n, at_size, read, is).
              pure-Gives _ (
                record {
                  grows = Grows-trans J grows g;
                  made = Grows-Constructed J c.data_ d.data_ build g made;
                  database = has;
                  pool_of = (
                    v,
                    n,
                    Settled-value J d.data_ section v "db" "pool_size" h at_size has.1.1.1.1.1.0,
                    read,
                    is,
                  );
                },
                same,
              )

    -- The rest of the start, after the database's section.
    make_log-Gives :
        (build : Build) (doc : J.Value) (c : Config J) (pool : DbPool)
        → Started J build doc c.data_ pool
        → Gives e
            (λ (r : Config J × Log J).
              RunsBy J build doc r.0.data_ pool r.1 × (r.0.fname ≡ c.fname))
            (make_log J build c)
    unfolding make_log access
    make_log-Gives build doc c pool started =
        bind_with-Gives _ _ (access-Gives J sets c log_section) λ d (g, has, same).
          bind_with-Gives _ _ (lift-Gives (J.at d.data_ "log")) λ section h.
            bind_with-Gives _ _ (construct-Completed J sets build.log_file section) λ l done.
              bind_with-Gives _ _ (lift-Gives (J.set d.data_ "log" l.cfg)) λ now set. pure-Gives _ (
                Started-RunsBy J build doc c.data_ d.data_ now pool l started g
                    (logged-Keeps J sets d.data_ section now l h done set)
                    (logged-LevelOf J sets d.data_ section now l h done set)
                    (logged-AsksFor J sets d.data_ section now l h done set),
                same,
              )

    construct_alerters-Gives :
        (this : ℕ) (opendir : String → Option (List DirEntry)) (dlopen : String → Option String)
        (factory : List String) (dll_alert lua_alert : String) (cfg : J.Value)
        → Gives e
            (λ (r : J.Value × List String). (k : String) → Stays J cfg r.0 k)
            (construct_alerters this opendir J dlopen factory dll_alert lua_alert cfg)
    unfolding construct_alerters
    construct_alerters-Gives this opendir dlopen factory dll_alert lua_alert cfg =
        bind_with-Gives _ _ (with_default-Gives J sets "alerter_cpp" dll_alert cfg) λ c keeps.
          bind_with-Gives _ _ (with_default-Gives J sets "alerter_lua" lua_alert c) λ d keeps'.
            bind-Gives _ _ λ cpp. bind-Gives _ _ λ known. bind-Gives _ _ λ lua.
              bind-Gives _ _ λ all. pure-Gives _ λ k. Stays-trans J cfg c d k (keeps k) (keeps' k)

    -- The section of the alerters is opened and completed, and nothing of it is lost.
    make_alerters-Gives :
        (build : Build) (this : ℕ) (opendir : String → Option (List DirEntry))
        (dlopen : String → Option String) (factory : List String) (c : Config J)
        → Gives e
            (λ (r : Config J × List String).
              Grows J c.data_ r.0.data_ × Accessed J r.0.data_ alerters × (r.0.fname ≡ c.fname))
            (make_alerters J build this opendir dlopen factory c)
    unfolding make_alerters access
    make_alerters-Gives build this opendir dlopen factory c =
        bind_with-Gives _ _ (access-Gives J sets c alerters) λ d (g, has, same).
          bind_with-Gives _ _ (lift-Gives (J.at d.data_ "alerters")) λ section h.
            bind_with-Gives _ _
              (construct_alerters-Gives this opendir dlopen factory build.dll_alert build.lua_alert
                section)
              λ (cfg, names) stays.
                bind_with-Gives _ _ (lift-Gives (J.set d.data_ "alerters" cfg)) λ now set.
                  pure-Gives _ (
                    Grows-trans J g (
                        replace-Grows J sets d.data_ now cfg "alerters" set λ k o there.
                          let v : section ≡ there.value = returned-injective (sym h ∙ there.at) in
                          let (m, at) = stays k (ap (λ u. J.is_member u k) v ∙ there.member) in
                          (m, at ∙ ap (λ u. J.at u k) v ∙ there.holds)),
                    sets.member_set d.data_ cfg now "alerters" set,
                    same,
                  )

  -- The backend, and the file that it has written.
  abbrev pub Saved : Build → String → J.Value → Backend J × String × String → Type 0
  Saved build fname doc (b, name, text) =
      RunsBy J build doc b.config.data_ b.pool b.log
      × Accessed J b.config.data_ alerters
      × (name ≡ fname)
      × (text ≡ J.print b.config.data_)

-- Members that are set as jsoncpp sets them. If the start of the backend returns, whatever the
-- server answers and whatever the directories of the alerters hold: the file that it has written is the
-- document in use. This has every setting of the old file's document (null without a file) with its
-- value, except the level of the log, and the settings of the backend and of the database. The pool has
-- no connection in use and the size that the document gives, and the document names the log's level.
pub boot-Saved :
    (J : Jsoncpp) (build : Build) (fname : String) (file : Option String) (doc : J.Value) (this : ℕ)
    (opendir : String → Option (List DirEntry)) (dlopen : String → Option String)
    (factory : List String) (e : Env)
    → Sets J
    → ReadsAs J file doc
    → Gives e (Saved J build fname doc) (boot J build fname file this opendir dlopen factory)
unfolding boot
boot-Saved J build fname file doc this opendir dlopen factory e sets h =
    bind_with-Gives _ _ (construct-Gives J sets build fname file)
      λ c ((read, reads, grows), made, name).
        bind_with-Gives _ _
          (make_pool-Gives J sets build doc c
            (subst (λ d. Grows J d c.data_) (same_reading J file read doc reads h) grows) made)
          λ (with_db, pool) (started, name1).
            bind_with-Gives _ _ (make_log-Gives J sets build doc with_db pool started)
              λ (with_log, l) (runs, name2).
                bind_with-Gives _ _
                  (make_alerters-Gives J sets build this opendir dlopen factory with_log)
                  λ (config, names) (g, has, name3). pure-Gives _ (
                    RunsBy-Grows J build doc with_log.data_ config.data_ pool l runs g,
                    has,
                    name3 ∙ name2 ∙ name1 ∙ name,
                    refl,
                  )
