-- ===== src/Config/Reload.antt =====
-- What a configuration has once it has been read, and that reading it again changes nothing.
use watched_back.Base.{◌≡◌, refl, sym, ◌∙◌, subst, String, Option, none, some, List, [], ◌∷◌, All}
use watched_back.World.{returned, Env}
use watched_back.Monad.{fold_m, cases}
use watched_back.Monad.Gives.{Gives, pure-Gives, bind_with-Gives, implies-Gives, lift-Gives}
use watched_back.Json.{Jsoncpp}
use watched_back.Config.{
  Build, Config, ssl_cert_setting, backend_settings, db_settings, read_file, complete, construct,
  get_section, get_db, Access, aggregate, alerters, central, log_section, db, access, configure,
}
use watched_back.Config.Settled.{
  Sets, returned-injective, HasSection, HasSetting, Grows, Grows-refl, Grows-trans,
}
use watched_back.Config.Adds.{first_setting-Gives, settings-Gives, open_section-Gives}

module _ (J : Jsoncpp) where
  abbrev pub HasAll : J.Value → String → List (String × J.Value) → Type 0
  HasAll doc section settings = All (λ (key, x). HasSetting J doc section key) settings

  -- What the constructor, and what a call of an accessor, leaves in the document.
  abbrev pub Constructed : Build → J.Value → Type 0
  Constructed build doc =
      HasSetting J doc "backend" "SSL_cert" × HasAll doc "backend" (backend_settings J build)

  abbrev pub Accessed : J.Value → Access J → Type 0
  Accessed doc aggregate = HasSection J doc "aggregate"
  Accessed doc alerters = HasSection J doc "alerters"
  Accessed doc central = HasSection J doc "central"
  Accessed doc log_section = HasSection J doc "log"
  Accessed doc db = HasSection J doc "db" × HasAll doc "db" (db_settings J)

  -- The document that the file holds, and null if it cannot be read.
  abbrev pub ReadsAs : Option String → J.Value → Type 0
  ReadsAs none doc = J.null ≡ doc
  ReadsAs (some text) doc = J.parse text ≡ returned doc

  Grows-HasAll :
      (a b : J.Value) (section : String) (settings : List (String × J.Value))
      → Grows J a b
      → HasAll a section settings
      → HasAll b section settings
  Grows-HasAll a b section [] g all = tt
  Grows-HasAll a b section ((key, x) ∷ settings) g ((o, s), all) =
      ((o, g.settings section key o s), Grows-HasAll a b section settings g all)

  pub Grows-Constructed :
      (a b : J.Value) (build : Build) → Grows J a b → Constructed build a → Constructed build b
  Grows-Constructed a b build g ((o, s), all) = (
    (o, g.settings "backend" "SSL_cert" o s),
    Grows-HasAll a b "backend" (backend_settings J build) g all,
  )

  pub Grows-Accessed : (a b : J.Value) (c : Access J) → Grows J a b → Accessed a c → Accessed b c
  Grows-Accessed a b aggregate g h = g.sections _ h
  Grows-Accessed a b alerters g h = g.sections _ h
  Grows-Accessed a b central g h = g.sections _ h
  Grows-Accessed a b log_section g h = g.sections _ h
  Grows-Accessed a b db g (h, all) = (g.sections _ h, Grows-HasAll a b "db" (db_settings J) g all)

  module _ (sets : Sets J) {e : Env} where
    complete-Gives :
        (build : Build) (doc : J.Value)
        → Gives e (λ doc'. Grows J doc doc' × Constructed build doc') (complete J build doc)
    unfolding complete
    complete-Gives build doc =
        bind_with-Gives _ _ (first_setting-Gives J sets "backend" doc (ssl_cert_setting J build))
          λ first (g, (o, cert)).
            implies-Gives
              (settings-Gives J sets "backend" (backend_settings J build) first cert.opened)
              λ doc' (g', all). (Grows-trans J g g', ((o, g'.settings _ _ o cert), all))

    read_file-Gives : (file : Option String) → Gives e (ReadsAs file) (read_file J file)
    unfolding read_file cases
    read_file-Gives none = pure-Gives J.null refl
    read_file-Gives (some text) = lift-Gives (J.parse text)

    pub construct-Gives :
        (build : Build) (fname : String) (file : Option String)
        → Gives e
            (λ c.
              ((doc : J.Value) × ReadsAs file doc × Grows J doc c.data_)
              × Constructed build c.data_
              × (c.fname ≡ fname))
            (construct J build fname file)
    unfolding construct
    construct-Gives build fname file = bind_with-Gives _ _ (read_file-Gives file) λ read reads.
        bind_with-Gives _ _ (complete-Gives build read)
          λ doc (g, made). pure-Gives _ ((read, reads, g), made, refl)

    section-Gives :
        (section : String) (c : Config J)
        → Gives e
            (λ c'. Grows J c.data_ c'.data_ × HasSection J c'.data_ section × (c'.fname ≡ c.fname))
            (get_section J section c)
    unfolding get_section
    section-Gives section c =
        bind_with-Gives _ _ (open_section-Gives J sets section c.data_)
          λ doc (g, has). pure-Gives _ (g, has, refl)

    pub access-Gives :
        (c : Config J) (a : Access J)
        → Gives e
            (λ c'. Grows J c.data_ c'.data_ × Accessed c'.data_ a × (c'.fname ≡ c.fname))
            (access J c a)
    unfolding access get_db
    access-Gives c aggregate = section-Gives "aggregate" c
    access-Gives c alerters = section-Gives "alerters" c
    access-Gives c central = section-Gives "central" c
    access-Gives c log_section = section-Gives "log" c
    access-Gives c db =
        bind_with-Gives _ _ (open_section-Gives J sets "db" c.data_) λ opened (g, has).
          bind_with-Gives _ _ (settings-Gives J sets "db" (db_settings J) opened has)
            λ doc (g', all). pure-Gives _ (Grows-trans J g g', (g'.sections "db" has, all), refl)

    calls-Gives :
        (calls : List (Access J)) (c : Config J)
        → Gives e
            (λ c'. Grows J c.data_ c'.data_ × All (Accessed c'.data_) calls × (c'.fname ≡ c.fname))
            (fold_m calls c (access J))
    unfolding fold_m
    calls-Gives [] c = pure-Gives c (Grows-refl J c.data_, tt, refl)
    calls-Gives (a ∷ calls) c = bind_with-Gives _ _ (access-Gives c a) λ c1 (g, done, same).
        implies-Gives (calls-Gives calls c1) λ c2 (g', all, same').
          (Grows-trans J g g', (Grows-Accessed c1.data_ c2.data_ a g' done, all), same' ∙ same)

    pub configure-Gives :
        (build : Build) (fname : String) (file : Option String) (calls : List (Access J))
        → Gives e
            (λ c.
              ((doc : J.Value) × ReadsAs file doc × Grows J doc c.data_)
              × Constructed build c.data_
              × All (Accessed c.data_) calls
              × (c.fname ≡ fname))
            (configure J build fname file calls)
    unfolding configure
    configure-Gives build fname file calls =
        bind_with-Gives _ _ (construct-Gives build fname file) λ c ((doc, reads, g0), made, name).
          implies-Gives (calls-Gives calls c) λ c' (g, all, same). (
            (doc, reads, Grows-trans J g0 g),
            Grows-Constructed c.data_ c'.data_ build g made,
            all,
            same ∙ name,
          )

pub same_reading :
    (J : Jsoncpp) (file : Option String) (a b : J.Value)
    → ReadsAs J file a
    → ReadsAs J file b
    → a ≡ b
same_reading J none a b h k = sym h ∙ k
same_reading J (some text) a b h k = returned-injective (sym h ∙ k)

-- Members that are set as jsoncpp sets them. If reading a file, and whatever sections are asked for,
-- returns a configuration, this still has every setting of the file's document (null without a file),
-- with the value that it had there; it has the six settings of the backend, and the five of the database
-- if that section was asked for.
pub configure-keeps :
    (J : Jsoncpp) (build : Build) (fname : String) (file : Option String) (doc : J.Value)
    (calls : List (Access J)) (e : Env)
    → Sets J
    → ReadsAs J file doc
    → Gives e
        (λ c. Grows J doc c.data_ × Constructed J build c.data_ × All (Accessed J c.data_) calls)
        (configure J build fname file calls)
configure-keeps J build fname file doc calls e sets h =
    implies-Gives (configure-Gives J sets build fname file calls)
      λ c ((read, reads, g), made, all, name).
        (subst (λ d. Grows J d c.data_) (same_reading J file read doc reads h) g, made, all)
