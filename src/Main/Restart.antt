-- ===== src/Main/Restart.antt =====
-- The backend that starts again over the file that it has written.
use watched_back.Base.{ℕ, ◌≡◌, refl, sym, ◌∙◌, ap, String, Option, some, List}
use watched_back.World.{returned, Env, World}
use watched_back.Monad.{run}
use watched_back.Monad.Gives.{Gives, implies-Gives}
use watched_back.Json.{Jsoncpp}
use watched_back.DbPool.{DbPool}
use watched_back.Log.{Log, level_of}
use watched_back.Log.Level.{level_of-name}
use watched_back.Alerter.Plugins.{DirEntry}
use watched_back.Config.{Build}
use watched_back.Config.Settled.{Sets, Settled, returned-injective}
use watched_back.Config.Reload.{ReadsAs}
use watched_back.Main.Boot.{Backend, boot}
use watched_back.Main.Runs.{PoolOf, LevelOf, AsksFor, Keeps}
use watched_back.Main.Saved.{boot-Saved}

-- What two directories of alerters and the libraries in them are at a start.
pub record Plugins : Type 0 where
  pub opendir : String → Option (List DirEntry)
  pub dlopen : String → Option String
  pub factory : List String

module _ (J : Jsoncpp) where
  -- A setting has one value.
  Settled-same :
      (doc v u : J.Value) (s k : String)
      → Settled J doc s k (returned v)
      → Settled J doc s k (returned u)
      → v ≡ u
  Settled-same doc v u s k h h' =
      returned-injective
        (sym h.holds ∙ ap (λ x. J.at x k) (returned-injective (sym h.at ∙ h'.at)) ∙ h'.holds)

  PoolOf-same :
      (a b : J.Value) (p q : DbPool)
      → ((v : J.Value)
          → Settled J a "db" "pool_size" (returned v)
          → Settled J b "db" "pool_size" (returned v))
      → PoolOf J a p
      → PoolOf J b q
      → q ≡ p
  PoolOf-same a b p q kept (v, n, h, read, is) (u, m, h', read', is') =
      let same : v ≡ u = Settled-same b v u "db" "pool_size" (kept v h) h' in
      let size : n ≡ m = returned-injective (sym read ∙ ap J.as_int same ∙ read') in cc

  -- The name that the document has is the name of the level.
  LevelOf-same :
      (doc : J.Value) (l k : Log J)
      → ((s : String) → J.as_string (J.of_string s) ≡ returned s)
      → LevelOf J doc l
      → AsksFor J doc k
      → k.level ≡ l.level
  LevelOf-same doc l k reads (name, settled, numbered) asks =
      let (s, text, level) = asks (J.of_string name) settled in
      level
      ∙ ap level_of (returned-injective (sym text ∙ reads name))
      ∙ level_of-name l.level name numbered

-- Members that are set as jsoncpp sets them, and strings that it reads as they were. If a backend has
-- started over any file or none, and what it has written parses to its document, then a backend that
-- starts over that file, with any alerters and over any database, has, if its start returns, a pool
-- equal to the first one's and the same level of the log, and every setting of the first but the
-- level's is in its document with its value.
pub boot-again :
    (J : Jsoncpp) (build : Build) (fname : String) (file : Option String) (doc : J.Value)
    (this that : ℕ) (old new : Plugins) (b : Backend J) (name text : String) (e f : Env) (w : World)
    → Sets J
    → ((s : String) → J.as_string (J.of_string s) ≡ returned s)
    → ReadsAs J file doc
    → (run (boot J build fname file this old.opendir old.dlopen old.factory) e w).0
      ≡ returned (b, name, text)
    → J.parse text ≡ returned b.config.data_
    → Gives f
        (λ (b', name', text').
          (b'.pool ≡ b.pool)
          × (b'.log.level ≡ b.log.level)
          × Keeps J b.config.data_ b'.config.data_)
        (boot J build name (some text) that new.opendir new.dlopen new.factory)
boot-again J build fname file doc this that old new b name text e f w sets reads h r parses =
    let (first, section, named, printed) =
      (boot-Saved J build fname file doc this old.opendir old.dlopen old.factory e sets h).at w
        (b, name, text) r in
    implies-Gives
      (boot-Saved J build name (some text) b.config.data_ that new.opendir new.dlopen new.factory f
        sets parses)
      λ (b', name', text') (second, section', named', printed'). (
        PoolOf-same J b.config.data_ b'.config.data_ b.pool b'.pool
            (λ v s. second.keeps "db" "pool_size" (returned v) refl s) first.pool_of second.pool_of,
        LevelOf-same J b.config.data_ b.log b'.log reads first.named second.asked,
        second.keeps,
      )
