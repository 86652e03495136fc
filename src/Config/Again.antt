-- ===== src/Config/Again.antt =====
-- Reading a configuration again, which changes nothing.
use watched_back.Base.{◌≡◌, ◌∙◌, String, true, Option, some, List, [], ◌∷◌, All}
use watched_back.World.{returned, Env, World}
use watched_back.Monad.{run, fold_m, cases}
use watched_back.Monad.Runs.{bind_run, lift-bind, run-pure}
use watched_back.Json.{Jsoncpp}
use watched_back.Config.{
  Build, Config, backend_settings, db_settings, read_file, complete, construct, save, get_section,
  get_db, Access, aggregate, alerters, central, log_section, db, access, configure,
}
use watched_back.Config.Settled.{Sets, HasSection, HasSetting}
use watched_back.Config.{default_setting, first_setting, open_section}
use watched_back.Config.Reload.{Constructed, Accessed, configure-Gives}

module _ (J : Jsoncpp) where
  -- What runs of the operations do on a document that has it all: nothing.
  pub run-default_setting :
      (section : String) (doc : J.Value) (key : String) (x : J.Value) (e : Env) (w : World)
      → HasSetting J doc section key
      → run (default_setting J section doc (key, x)) e w ≡ (returned doc, w)
  unfolding default_setting
  run-default_setting section doc key x e w (o, s) =
      lift-bind _ _ e w s.value s.at ∙ lift-bind _ _ e w true s.member ∙ run-pure doc e w

  pub run-first_setting :
      (section : String) (doc : J.Value) (key : String) (x : J.Value) (e : Env) (w : World)
      → HasSetting J doc section key
      → run (first_setting J section doc (key, x)) e w ≡ (returned doc, w)
  unfolding first_setting
  run-first_setting section doc key x e w (o, s) =
      lift-bind _ _ e w true s.opened ∙ run-default_setting section doc key x e w (o, s)

  pub run-open_section :
      (section : String) (doc : J.Value) (e : Env) (w : World)
      → HasSection J doc section
      → run (open_section J section doc) e w ≡ (returned doc, w)
  unfolding open_section
  run-open_section section doc e w has = lift-bind _ _ e w true has ∙ run-pure doc e w

  pub run-settings :
      (section : String) (settings : List (String × J.Value)) (doc : J.Value) (e : Env) (w : World)
      → All (λ (key, x). HasSetting J doc section key) settings
      → run (fold_m settings doc (default_setting J section)) e w ≡ (returned doc, w)
  unfolding fold_m
  run-settings section [] doc e w all = run-pure doc e w
  run-settings section ((key, x) ∷ settings) doc e w all =
      bind_run _ _ e w w doc (run-default_setting section doc key x e w all.0)
      ∙ run-settings section settings doc e w all.1

  module _ (e : Env) (w : World) where
    run-complete :
        (build : Build) (doc : J.Value)
        → Constructed J build doc
        → run (complete J build doc) e w ≡ (returned doc, w)
    unfolding complete
    run-complete build doc (cert, all) =
        bind_run _ _ e w w doc (run-first_setting "backend" doc "SSL_cert" _ e w cert)
        ∙ run-settings "backend" (backend_settings J build) doc e w all

    run-construct :
        (build : Build) (c : Config J) (text : String)
        → J.parse text ≡ returned c.data_
        → Constructed J build c.data_
        → run (construct J build c.fname (some text)) e w ≡ (returned c, w)
    unfolding construct read_file cases
    run-construct build c text h made =
        lift-bind _ _ e w c.data_ h
        ∙ bind_run _ _ e w w c.data_ (run-complete build c.data_ made)
        ∙ run-pure c e w

    run-section :
        (section : String) (c : Config J)
        → HasSection J c.data_ section
        → run (get_section J section c) e w ≡ (returned c, w)
    unfolding get_section
    run-section section c has =
        bind_run _ _ e w w c.data_ (run-open_section section c.data_ e w has) ∙ run-pure c e w

    run-access :
        (c : Config J) (a : Access J)
        → Accessed J c.data_ a
        → run (access J c a) e w ≡ (returned c, w)
    unfolding access get_db
    run-access c aggregate has = run-section "aggregate" c has
    run-access c alerters has = run-section "alerters" c has
    run-access c central has = run-section "central" c has
    run-access c log_section has = run-section "log" c has
    run-access c db (has, all) =
        bind_run _ _ e w w c.data_ (run-open_section "db" c.data_ e w has)
        ∙ bind_run _ _ e w w c.data_ (run-settings "db" (db_settings J) c.data_ e w all)
        ∙ run-pure c e w

    run-calls :
        (calls : List (Access J)) (c : Config J)
        → All (Accessed J c.data_) calls
        → run (fold_m calls c (access J)) e w ≡ (returned c, w)
    unfolding fold_m
    run-calls [] c all = run-pure c e w
    run-calls (a ∷ calls) c (done, all) =
        bind_run _ _ e w w c (run-access c a done) ∙ run-calls calls c all

-- Members that are set as jsoncpp sets them. A configuration that was read from any file, or from
-- none, and whose sections were asked for in any order, is saved; if its text parses to the same
-- document, the configuration that is read from the saved file, and asked for the same sections, is
-- the same one: nothing is added or changed.
pub configure-save :
    (J : Jsoncpp) (build : Build) (fname : String) (file : Option String) (calls : List (Access J))
    (c : Config J) (e f : Env) (w v : World)
    → Sets J
    → (run (configure J build fname file calls) e w).0 ≡ returned c
    → J.parse (save J c).1 ≡ returned c.data_
    → run (configure J build (save J c).0 (some (save J c).1) calls) f v ≡ (returned c, v)
unfolding configure
configure-save J build fname file calls c e f w v sets r h =
    let (from, made, all, name) = (configure-Gives J sets build fname file calls).at w c r in
    bind_run _ _ f v v c (run-construct J f v build c (save J c).1 h made)
    ∙ run-calls J f v calls c all
