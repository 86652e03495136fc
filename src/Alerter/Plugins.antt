-- ===== src/Alerter/Plugins.antt =====
-- The constructor of `alerterManager` in src/alerter.cpp, which loads the alerters of two
-- directories. What the directories hold, and what `dlopen` says, are arguments.
use Prim.Native.Char.{code}
use watched_back.Base.{
  ℕ, String, ◌<>◌, Bool, false, ◌&&◌, ◌||◌, not, Option, none, some, List, [], ◌∷◌, str_eq, ◌==◌,
  if◌then◌else◌, rfind, take_text, drop_text,
}
use watched_back.World.{Outcome, returned, threw, std_exception}
use watched_back.Monad.{M, pure, lift, ◌>>=◌, ◌>>◌, cases, fold_m, error, warning}
use watched_back.Json.{Jsoncpp}
use watched_back.Json.Read.{string_at}
use watched_back.Log.{with_default}
use watched_back.Alerter.{knows, add_alerter}

-- An entry that `readdir` gives, with what `stat` says of it.
pub record DirEntry : Type 0 where
  pub file : String
  pub stat_ok : Bool
  pub is_directory : Bool

abbrev pub starts_with_dot : String → Bool
starts_with_dot String.[] = false
starts_with_dot (String.◌∷◌ c s) = code c == b'.'

-- The three `continue`s.
abbrev pub is_skipped : DirEntry → Bool
is_skipped entry = starts_with_dot entry.file || not entry.stat_ok || entry.is_directory

-- `file_name.substr(0, file_name.rfind("."))`
abbrev pub stem : String → String
stem file = elim (rfind b'.' file) [ none ↦ file | some i ↦ take_text i file ]

-- `file_name.substr(file_name.rfind("."))`: without a dot `rfind` gives `npos`, and `substr`
-- throws.
abbrev pub extension : String → Outcome String
extension file = elim (rfind b'.' file) [
  | none ↦ threw (std_exception "basic_string::substr")
  | some i ↦ returned (drop_text i file)
]

-- One round of the first loop. `dlopen` gives the text of `dlerror`, if it fails.
unfoldable pub load_library : (String → Option String) → String → DirEntry → M (Unit {0})
load_library dlopen dirname entry = if is_skipped entry then pure tt else (do
  ext ← lift (extension entry.file)
  let path = dirname <> ("/" <> entry.file)
  if str_eq ext ".so"
      then cases (dlopen path) (pure tt)
          (λ reason. error "alerterManager::" (reason <> (" while loading " <> path)))
      else pure tt)

-- One round of the loop over the Lua alerters: the names known after it.
unfoldable pub load_lua : ℕ → List String → DirEntry → M (List String)
load_lua this known entry = if is_skipped entry then pure known else (do
  ext ← lift (extension entry.file)
  let name = stem entry.file
  if str_eq ext ".lua" && not (knows known name)
      then (do add_alerter this name; pure (name ∷ known))
      else pure known)

unfoldable pub load_lua_dir : ℕ → List String → List DirEntry → M (List String)
load_lua_dir this known entries = fold_m entries known (load_lua this)

-- The C++ alerters that the loaded libraries registered in `alerterFactory`.
unfoldable pub add_all : ℕ → List String → List String → M (List String)
add_all this known names = fold_m names known λ k name. do add_alerter this name; pure (name ∷ k)

module _ (this : ℕ) (opendir : String → Option (List DirEntry)) where
  -- The first loop, over the directory `cpp`, and the alerters of the factory. `none` is a directory
  -- that cannot be opened.
  unfoldable pub load_cpp : (String → Option String) → List String → String → M (List String)
  load_cpp dlopen factory cpp = do
    cases (opendir cpp)
        (warning "alerterManager::" (cpp <> " doesnt exist. No alerter plugins will be used"))
        (λ entries. fold_m entries tt λ _ entry. load_library dlopen cpp entry)
    add_all this [] factory

  -- The second loop, over the directory `lua`.
  unfoldable pub load_scripts : List String → String → M (List String)
  load_scripts known lua =
      cases (opendir lua)
        (do
          warning "alerterManager::" (lua <> " doesnt exist. No lua alerter plugins will be used")
          pure known)
        (load_lua_dir this known)

  -- `alerterManager::alerterManager`: the completed section of the configuration, and the names
  -- known. `dll_alert` and `lua_alert` are the directories that the build names.
  unfoldable pub construct :
      (J : Jsoncpp)
      → (String → Option String)
      → List String
      → String
      → String
      → J.Value
      → M (J.Value × List String)
  construct J dlopen factory dll_alert lua_alert cfg = do
    c ← with_default J "alerter_cpp" dll_alert cfg
    d ← with_default J "alerter_lua" lua_alert c
    cpp ← string_at J d "alerter_cpp"
    known ← load_cpp dlopen factory cpp
    lua ← string_at J d "alerter_lua"
    alerters ← load_scripts known lua
    pure (d, alerters)
