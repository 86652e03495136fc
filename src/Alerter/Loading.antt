-- ===== src/Alerter/Loading.antt =====
-- Which alerters the constructor of `alerterManager` knows in the end, and which file stops it.
use watched_back.Base.{
  ℕ, ◌≡◌, refl, ◌≢◌, ◌∙◌, String, Bool, true, false, ◌&&◌, ◌||◌, not, none, some, List, [], ◌∷◌,
  ◌++◌, str_eq, eq_iff, arith, if◌then◌else◌, rfind, Bool-cases, inl, inr, All,
}
use watched_back.World.{
  Outcome, returned, threw, std_exception, Env, World, Trace, Query, add_event, executed,
}
use watched_back.Monad.{run, fold_m}
use watched_back.Monad.Runs.{bind-returned, bind_run}
use watched_back.DbTools.{with_connection, grab}
use watched_back.Alerter.{knows, alerter_query, add_alerter}
use watched_back.Alerter.Plugins.{DirEntry, is_skipped, stem, extension, load_lua, load_lua_dir}

-- A file that is looked at, and has no dot in its name.
pub record Dotless (entry : DirEntry) : Type 0 where
  pub seen : is_skipped entry ≡ false
  pub no_dot : rfind b'.' entry.file ≡ none

load_lua-threw :
    (this : ℕ) (e : Env) (known : List String) (entry : DirEntry) (w : World)
    → Dotless entry
    → run (load_lua this known entry) e w ≡ (threw (std_exception "basic_string::substr"), w)
unfolding run load_lua
load_lua-threw this e known entry w d = ground (arith, d.seen, d.no_dot)

-- Where the directory of Lua alerters has a file without a dot in its name (one that is not hidden,
-- that `stat` finds, and that is no directory), the loop never comes to an end: whatever stands
-- around it, and whatever the server answers, no list of alerters is returned.
pub load_lua_dir-Dotless :
    (this : ℕ) (e : Env) (before : List DirEntry) (bad : DirEntry) (after : List DirEntry)
    (known known' : List String) (w : World)
    → Dotless bad
    → (run (load_lua_dir this known (before ++ bad ∷ after)) e w).0 ≢ returned known'
unfolding load_lua_dir fold_m
load_lua_dir-Dotless this e [] bad after known known' w d h =
    let (k, v, r, rest) = bind-returned (load_lua this known bad) _ e w known' h in
    cc (load_lua-threw this e known bad w d)
load_lua_dir-Dotless this e (x ∷ before) bad after known known' w d h =
    let (k, v, r, rest) = bind-returned (load_lua this known x) _ e w known' h in
    load_lua_dir-Dotless this e before bad after k known' v d rest

abbrev is_ext : Outcome String → String → Bool
is_ext (returned s) ext = str_eq s ext
is_ext _ ext = false

-- A server that takes every statement, and never fails to.
pub record TakesAll (e : Env) : Type 0 where
  pub takes : (t : Trace) (q : Query) → e.exec t q ≡ returned true

-- An entry that the loop passes without an exception.
abbrev pub HasDot : DirEntry → Type 0
HasDot entry = rfind b'.' entry.file ≢ none

-- Whether one of the entries is a Lua file, not skipped, of this alerter.
abbrev pub has_lua : List DirEntry → String → Bool
has_lua [] name = false
has_lua (x ∷ xs) name =
    (not (is_skipped x) && is_ext (extension x.file) ".lua" && str_eq (stem x.file) name)
    || has_lua xs name

-- Whether a round adds an alerter.
abbrev pub adds : List String → DirEntry → Bool
adds known x =
    not (is_skipped x) && is_ext (extension x.file) ".lua" && not (knows known (stem x.file))

abbrev pub load_names : List String → List DirEntry → List String
load_names known [] = known
load_names known (x ∷ xs) = load_names (if adds known x then stem x.file ∷ known else known) xs

-- The database is told of each new alerter, and nothing else happens.
abbrev pub load_world : List String → List DirEntry → World → World
load_world known [] w = w
load_world known (x ∷ xs) w =
    load_world (if adds known x then stem x.file ∷ known else known) xs
      (if adds known x then add_event w (executed (alerter_query (stem x.file))) else w)

add_alerter_runs :
    (this c : ℕ) (name : String) (e : Env) (w : World)
    → TakesAll e
    → w.conn this ≡ some c
    → run (add_alerter this name) e w ≡ (returned tt, add_event w (executed (alerter_query name)))
unfolding run add_alerter with_connection grab
add_alerter_runs this c name e w t h = ground (arith, t.takes w.trace (alerter_query name))

load_lua_runs :
    (this c : ℕ) (e : Env) (known : List String) (x : DirEntry) (w : World)
    → TakesAll e
    → HasDot x
    → w.conn this ≡ some c
    → run (load_lua this known x) e w ≡ (
      returned (if adds known x then stem x.file ∷ known else known),
      if adds known x then add_event w (executed (alerter_query (stem x.file))) else w,
    )
unfolding run load_lua
load_lua_runs this c e known x w t d h =
    ground (arith, add_alerter_runs this c (stem x.file) e w t h)

connected_after :
    (this c : ℕ) (known : List String) (x : DirEntry) (w : World)
    → w.conn this ≡ some c
    → (if adds known x then add_event w (executed (alerter_query (stem x.file))) else w).conn this
      ≡ some c
connected_after this c known x w h = elim (Bool-cases (adds known x)) [
  | inl y ↦ rw y h
  | inr n ↦ rw n h
]

load_lua_dir_runs :
    (this c : ℕ) (e : Env) (xs : List DirEntry) (known : List String) (w : World)
    → TakesAll e
    → All HasDot xs
    → w.conn this ≡ some c
    → run (load_lua_dir this known xs) e w ≡ (returned (load_names known xs), load_world known xs w)
unfolding load_lua_dir fold_m
load_lua_dir_runs this c e [] known w t d h = unfold run in refl
load_lua_dir_runs this c e (x ∷ xs) known w t d h =
    bind_run (load_lua this known x) _ e w _ _ (load_lua_runs this c e known x w t d.0 h)
    ∙ load_lua_dir_runs this c e xs _ _ t d.1 (connected_after this c known x w h)

knows-adds :
    (known : List String) (x : DirEntry) (n : String)
    → knows (if adds known x then stem x.file ∷ known else known) n
      ≡ (knows known n || has_lua (x ∷ []) n)
knows-adds known x n = ground (arith, eq_iff (stem x.file) n)

knows-load_names :
    (known : List String) (xs : List DirEntry) (n : String)
    → knows (load_names known xs) n ≡ (knows known n || has_lua xs n)
knows-load_names known [] n = ground arith
knows-load_names known (x ∷ xs) n = ground (
  arith,
  knows-load_names (if adds known x then stem x.file ∷ known else known) xs n,
  knows-adds known x n,
)

-- Over a server that takes all statements, with a connected manager, and where each entry of the
-- directory has a dot in its name, the loop over the Lua alerters ends: it tells the database of
-- each new alerter once, and knows afterwards exactly the alerters that it knew before and those
-- for which the directory has a file `.lua`.
pub load_lua_dir-knows :
    (this c : ℕ) (e : Env) (known : List String) (xs : List DirEntry) (w : World) (n : String)
    → TakesAll e
    → All HasDot xs
    → w.conn this ≡ some c
    → (run (load_lua_dir this known xs) e w
        ≡ (returned (load_names known xs), load_world known xs w))
      × (knows (load_names known xs) n ≡ (knows known n || has_lua xs n))
load_lua_dir-knows this c e known xs w n t d h =
    (load_lua_dir_runs this c e xs known w t d h, knows-load_names known xs n)
