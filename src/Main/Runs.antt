-- ===== src/Main/Runs.antt =====
-- What a started backend runs with, and what the document of its configuration then has.
use watched_back.Base.{
  ℤ, to_u32, ◌≡◌, refl, sym, ◌∙◌, ap, subst, String, false, ◌&&◌, List, [], ◌∷◌, str_eq, eq_iff,
  Bool-cases, inl, inr,
}
use watched_back.World.{Outcome, returned}
use watched_back.Json.{Jsoncpp}
use watched_back.DbPool.{DbPool}
use watched_back.Log.{Log, levels, element, level_of}
use watched_back.Log.Saved.{Completed}
use watched_back.Config.{Build, db, backend_settings, db_settings}
use watched_back.Config.Settled.{Sets, returned-injective, HasSetting, Settled, Grows}
use watched_back.Config.Reload.{HasAll, Constructed, Accessed, Grows-Constructed, Grows-Accessed}

module _ (J : Jsoncpp) where
  -- The pool is unused, and as large as the document says.
  abbrev pub PoolOf : J.Value → DbPool → Type 0
  PoolOf doc pool =
      (v : J.Value) × (n : ℤ) × Settled J doc "db" "pool_size" (returned v)
      × (J.as_int v ≡ returned n)
      × (pool ≡ record { pool_size = to_u32 n; used_count = 0 })

  -- The document has the name of the log's level.
  abbrev pub LevelOf : J.Value → Log J → Type 0
  LevelOf doc log =
      (name : String) × Settled J doc "log" "level" (returned (J.of_string name))
      × (element log.level levels ≡ returned name)

  -- The log has the level that the document asks for, if it does.
  abbrev pub AsksFor : J.Value → Log J → Type 0
  AsksFor doc log =
      (v : J.Value)
      → Settled J doc "log" "level" (returned v)
      → (s : String) × (J.as_string v ≡ returned s) × (log.level ≡ level_of s)

  -- Every setting but the level of the log.
  abbrev pub Keeps : J.Value → J.Value → Type 0
  Keeps a b =
      (s k : String) (o : Outcome J.Value)
      → (str_eq "log" s && str_eq "level" k) ≡ false
      → Settled J a s k o
      → Settled J b s k o

  -- What a backend that started over the document `doc` runs with, and the document has now.
  pub record RunsBy (build : Build) (doc now : J.Value) (pool : DbPool) (log : Log J) : Type 0 where
    pub keeps : Keeps doc now
    pub made : Constructed J build now
    pub database : Accessed J now db
    pub pool_of : PoolOf now pool
    pub named : LevelOf now log
    pub asked : AsksFor doc log

  Keeps-Grows : (a b c : J.Value) → Keeps a b → Grows J b c → Keeps a c
  Keeps-Grows a b c k g s key o h has = g.settings s key o (k s key o h has)

  -- From `getDB` on: what the document and the parts have.
  pub record Started (build : Build) (doc now : J.Value) (pool : DbPool) : Type 0 where
    pub grows : Grows J doc now
    pub made : Constructed J build now
    pub database : Accessed J now db
    pub pool_of : PoolOf now pool

  Grows-PoolOf : (a b : J.Value) (pool : DbPool) → Grows J a b → PoolOf a pool → PoolOf b pool
  Grows-PoolOf a b pool g (v, n, settled, read, is) = (v, n, g.settings _ _ _ settled, read, is)

  -- The settings of a section other than the log's.
  keep_all :
      (a b : J.Value) (section : String) (settings : List (String × J.Value))
      → str_eq "log" section ≡ false
      → Keeps a b
      → HasAll J a section settings
      → HasAll J b section settings
  keep_all a b section [] other k all = tt
  keep_all a b section ((key, x) ∷ settings) other k ((o, s), all) = (
    (o, k section key o (ap (λ y. y && str_eq "level" key) other) s),
    keep_all a b section settings other k all,
  )

  -- A setting with the value that it has in the section.
  pub Settled-value :
      (doc section v : J.Value) (s k : String)
      → J.at doc s ≡ returned section
      → J.at section k ≡ returned v
      → HasSetting J doc s k
      → Settled J doc s k (returned v)
  Settled-value doc section v s k h k_is (o, has) = record {
    opened = has.opened;
    value = has.value;
    at = has.at;
    member = has.member;
    holds = ap (λ u. J.at u k) (returned-injective (sym has.at ∙ h)) ∙ k_is;
  }

  -- The section of the log is replaced by the completed one.
  module _ (sets : Sets J) (doc section doc' : J.Value) (l : Log J)
      (at_log : J.at doc "log" ≡ returned section) (done : Completed J section l)
      (set : J.set doc "log" l.cfg ≡ returned doc') where
    pub logged-Keeps : Keeps doc doc'
    logged-Keeps s k o free has = elim (Bool-cases (str_eq "log" s)) [
      | inl same ↦
          let e : "log" ≡ s = (eq_iff "log" s).0 same in
          let there = subst (λ t. Settled J doc t k o) (sym e) has in
          let v : there.value ≡ section = returned-injective (sym there.at ∙ at_log) in
          let (member, at) =
            done.stays k (ap (λ b. b && str_eq "level" k) (sym same) ∙ free)
              (ap (λ u. J.is_member u k) (sym v) ∙ there.member) in
          subst (λ t. Settled J doc' t k o) e
            record {
              opened = sets.member_set doc l.cfg doc' "log" set;
              value = l.cfg;
              at = sets.at_set doc l.cfg doc' "log" set;
              member = member;
              holds = at ∙ ap (λ u. J.at u k) (sym v) ∙ there.holds;
            }
      | inr differs ↦ record {
        opened = sets.member_other doc l.cfg doc' "log" s set differs ∙ has.opened;
        value = has.value;
        at = sets.at_other doc l.cfg doc' "log" s set differs ∙ has.at;
        member = has.member;
        holds = has.holds;
      }
    ]

    pub logged-AsksFor : AsksFor doc l
    logged-AsksFor v has =
        let same : has.value ≡ section = returned-injective (sym has.at ∙ at_log) in
        done.asked v (ap (λ u. J.is_member u "level") (sym same) ∙ has.member)
          (ap (λ u. J.at u "level") (sym same) ∙ has.holds)

    pub logged-LevelOf : LevelOf doc' l
    logged-LevelOf = (
      done.name,
      record {
        opened = sets.member_set doc l.cfg doc' "log" set;
        value = l.cfg;
        at = sets.at_set doc l.cfg doc' "log" set;
        member = done.member;
        holds = done.at;
      },
      done.level,
    )

  -- What the log leaves as it was.
  pub Started-RunsBy :
      (build : Build) (doc a b now : J.Value) (pool : DbPool) (l : Log J)
      → Started build doc a pool
      → Grows J a b
      → Keeps b now
      → LevelOf now l
      → AsksFor b l
      → RunsBy build doc now pool l
  Started-RunsBy build doc a b now pool l s g k level asked =
      let moved =
        λ (section key : String) (o : Outcome J.Value)
            (other : (str_eq "log" section && str_eq "level" key) ≡ false)
            (has : Settled J a section key o).
          k section key o other (g.settings section key o has) in
      let (v, n, settled, read, is) = s.pool_of in
      let ((o, cert), all) = s.made in
      record {
        keeps = λ section key o' other has.
            moved section key o' other (s.grows.settings section key o' has);
        made = (
          (o, moved "backend" "SSL_cert" o refl cert),
          keep_all a now "backend" (backend_settings J build) refl moved all,
        );
        database = (
          (moved "db" "pool_size" (returned v) refl settled).opened,
          keep_all a now "db" (db_settings J) refl moved s.database.1,
        );
        pool_of = (v, n, moved "db" "pool_size" (returned v) refl settled, read, is);
        named = level;
        asked = λ v' has. asked v' (g.settings _ _ _ (s.grows.settings _ _ _ has));
      }

  -- A section that is asked for changes nothing of this.
  pub RunsBy-Grows :
      (build : Build) (doc a b : J.Value) (pool : DbPool) (l : Log J)
      → RunsBy build doc a pool l
      → Grows J a b
      → RunsBy build doc b pool l
  RunsBy-Grows build doc a b pool l r g =
      let (v, n, settled, read, is) = r.pool_of in
      let (name, level, numbered) = r.named in
      record {
        keeps = λ s k o other has. g.settings s k o (r.keeps s k o other has);
        made = Grows-Constructed J a b build g r.made;
        database = Grows-Accessed J a b db g r.database;
        pool_of = (v, n, g.settings _ _ _ settled, read, is);
        named = (name, g.settings _ _ _ level, numbered);
        asked = r.asked;
      }
