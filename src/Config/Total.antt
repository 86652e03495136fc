-- ===== src/Config/Total.antt =====
-- The configuration over documents whose sections are objects: nothing throws.
use watched_back.Base.{
  ◌≡◌, refl, sym, ◌∙◌, ap, subst, String, Bool, Option, none, some, List, str_eq, eq_iff,
  Bool-cases, inl, inr,
}
use watched_back.World.{returned, Env}
use watched_back.Monad.{lift, cases}
use watched_back.Monad.Returns.{
  Returns, pure-Returns, bind-Returns, lift-Returns, if-Returns, fold_m-Returns,
}
use watched_back.Json.{Jsoncpp}
use watched_back.Config.{
  Build, Config, put_setting, default_setting, first_setting, open_section, ssl_cert_setting,
  backend_settings, db_settings, read_file, complete, construct, get_section, get_db, Access,
  aggregate, alerters, central, log_section, db, access, configure,
}
use watched_back.Config.Settled.{Sets}
use watched_back.Config.Reload.{ReadsAs}

-- Objects, whose members can be tested, read and set. Null is one without members.
pub record Objects (J : Jsoncpp) : Type 1 where
  pub IsObject : J.Value → Type 0
  pub null-IsObject : IsObject J.null
  pub empty-IsObject : IsObject J.empty_object
  pub tests : (v : J.Value) (k : String) → IsObject v → (b : Bool) × (J.is_member v k ≡ returned b)
  pub reads : (v : J.Value) (k : String) → IsObject v → (x : J.Value) × (J.at v k ≡ returned x)
  pub sets :
      (v x : J.Value) (k : String)
      → IsObject v
      → (v' : J.Value) × (J.set v k x ≡ returned v') × IsObject v'

module _ (J : Jsoncpp) (objects : Objects J) where
  -- An object whose member is one, too.
  pub record Ready (section : String) (doc : J.Value) : Type 0 where
    pub object : objects.IsObject doc
    pub value : J.Value
    pub at : J.at doc section ≡ returned value
    pub value_object : objects.IsObject value

  -- Both sections whose settings are filled in.
  abbrev pub BothReady : J.Value → Type 0
  BothReady doc = Ready "backend" doc × Ready "db" doc

  module _ (sets : Sets J) where
    set-Ready :
        (doc new doc' : J.Value) (section other : String)
        → J.set doc section new ≡ returned doc'
        → objects.IsObject doc'
        → objects.IsObject new
        → Ready other doc
        → Ready other doc'
    set-Ready doc new doc' section other h object new_object r =
        elim (Bool-cases (str_eq section other)) [
          | inl same ↦
              subst (λ s. Ready s doc') ((eq_iff section other).0 same)
                record {
                  object = object;
                  value = new;
                  at = sets.at_set doc new doc' section h;
                  value_object = new_object;
                }
          | inr differs ↦ record {
            object = object;
            value = r.value;
            at = sets.at_other doc new doc' section other h differs ∙ r.at;
            value_object = r.value_object;
          }
        ]

  module _ (sets : Sets J) {e : Env} where
    -- A section that is replaced by an object.
    set-Returns :
        (doc new : J.Value) (section : String)
        → objects.IsObject new
        → BothReady doc
        → Returns e BothReady (lift (J.set doc section new))
    set-Returns doc new section new_object (b, d) =
        let (doc', h, object) = objects.sets doc new section b.object in
        lift-Returns _ doc' h (
          set-Ready sets doc new doc' section "backend" h object new_object b,
          set-Ready sets doc new doc' section "db" h object new_object d,
        )

    put_setting-Returns :
        (section : String) (doc : J.Value) (key : String) (x : J.Value)
        → Ready section doc
        → BothReady doc
        → Returns e BothReady (put_setting J section doc key x)
    unfolding put_setting
    put_setting-Returns section doc key x r both =
        let (new, h, new_object) = objects.sets r.value x key r.value_object in
        bind-Returns {R = λ old. old ≡ r.value} _ _ (lift-Returns _ r.value r.at refl) λ old same.
          bind-Returns {R = λ u. objects.IsObject u} _ _
            (lift-Returns _ new (ap (λ u. J.set u key x) same ∙ h) new_object)
            λ u object. set-Returns doc u section object both

    -- A test, whatever it says.
    test-Returns :
        (v : J.Value) (k : String)
        → objects.IsObject v
        → Returns e (λ _. Unit {0}) (lift (J.is_member v k))
    test-Returns v k object = let (b, h) = objects.tests v k object in lift-Returns _ b h tt

    default_setting-Returns :
        (section : String) (doc : J.Value) (setting : String × J.Value)
        → Ready section doc
        → BothReady doc
        → Returns e BothReady (default_setting J section doc setting)
    unfolding default_setting
    default_setting-Returns section doc (key, x) r both =
        bind-Returns {R = λ old. objects.IsObject old} _ _
          (lift-Returns _ r.value r.at r.value_object)
          λ old object. bind-Returns _ _ (test-Returns old key object) λ there _.
            if-Returns there _ _ (pure-Returns doc both)
              (put_setting-Returns section doc key x r both)

    first_setting-Returns :
        (section : String) (doc : J.Value) (setting : String × J.Value)
        → Ready section doc
        → BothReady doc
        → Returns e BothReady (first_setting J section doc setting)
    unfolding first_setting
    first_setting-Returns section doc (key, x) r both =
        bind-Returns _ _ (test-Returns doc section r.object) λ there _.
          if-Returns there _ _ (default_setting-Returns section doc (key, x) r both)
            (put_setting-Returns section doc key x r both)

    open_section-Returns :
        (section : String) (doc : J.Value)
        → BothReady doc
        → Returns e BothReady (open_section J section doc)
    unfolding open_section
    open_section-Returns section doc both =
        bind-Returns _ _ (test-Returns doc section both.0.object) λ there _.
          if-Returns there _ _ (pure-Returns doc both)
            (set-Returns doc J.empty_object section objects.empty-IsObject both)

    complete-Returns :
        (build : Build) (doc : J.Value) → BothReady doc → Returns e BothReady (complete J build doc)
    unfolding complete
    complete-Returns build doc both =
        bind-Returns _ _
          (first_setting-Returns "backend" doc (ssl_cert_setting J build) both.0 both)
          λ first ready.
            fold_m-Returns (backend_settings J build) first _ ready
              λ d setting r. default_setting-Returns "backend" d setting r.0 r

    read_file-Returns :
        (file : Option String) (doc : J.Value)
        → ReadsAs J file doc
        → BothReady doc
        → Returns e BothReady (read_file J file)
    unfolding read_file cases
    read_file-Returns none doc h both = pure-Returns J.null (subst BothReady (sym h) both)
    read_file-Returns (some text) doc h both = lift-Returns _ doc h both

    section-Returns :
        (section : String) (c : Config J)
        → BothReady c.data_
        → Returns e (λ c'. BothReady c'.data_) (get_section J section c)
    unfolding get_section
    section-Returns section c both =
        bind-Returns _ _ (open_section-Returns section c.data_ both) λ doc r. pure-Returns _ r

    access-Returns :
        (c : Config J) (a : Access J)
        → BothReady c.data_
        → Returns e (λ c'. BothReady c'.data_) (access J c a)
    unfolding access get_db
    access-Returns c aggregate both = section-Returns "aggregate" c both
    access-Returns c alerters both = section-Returns "alerters" c both
    access-Returns c central both = section-Returns "central" c both
    access-Returns c log_section both = section-Returns "log" c both
    access-Returns c db both =
        bind-Returns _ _ (open_section-Returns "db" c.data_ both) λ opened ready.
          bind-Returns _ _
            (fold_m-Returns (db_settings J) opened _ ready
              λ d setting r. default_setting-Returns "db" d setting r.1 r)
            λ doc r. pure-Returns _ r

-- jsoncpp's objects, and members that are set as it sets them. If the file's document (null without
-- a file) is an object whose sections for the backend and the database are objects or missing, the
-- configuration is read and every section can be asked for, in any order: no call throws.
pub configure-Returns :
    (J : Jsoncpp) (objects : Objects J) (build : Build) (fname : String) (file : Option String)
    (doc : J.Value) (calls : List (Access J)) (e : Env)
    → Sets J
    → ReadsAs J file doc
    → BothReady J objects doc
    → Returns e (λ c. BothReady J objects c.data_) (configure J build fname file calls)
unfolding configure construct
configure-Returns J objects build fname file doc calls e sets h both =
    bind-Returns {R = λ c. BothReady J objects c.data_} _ _
      (bind-Returns _ _ (read_file-Returns J objects sets file doc h both) λ read r.
        bind-Returns _ _ (complete-Returns J objects sets build read r) λ d r'. pure-Returns _ r')
      λ c r. fold_m-Returns calls c (access J) r λ c' a r'. access-Returns J objects sets c' a r'
