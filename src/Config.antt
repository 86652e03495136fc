-- ===== src/Config.antt =====
-- `Config` of src/config.cpp: the configuration file, with the settings that it lacks. The comments
-- that the source gives to them change no value, and are left out.
pub mod Settled
pub mod Adds
pub mod Reload
pub mod Again
pub mod Total
mod Tests
use watched_back.Base.{
  ℕ, ℤ, pos, negsuc, String, Bool, true, Option, none, some, List, [], ◌∷◌, if◌then◌else◌,
}
use watched_back.World.{Outcome}
use watched_back.Monad.{M, pure, lift, ◌>>=◌, fold_m, cases}
use watched_back.Json.{Jsoncpp}

-- The paths that the build writes to include/config.h.
pub record Build : Type 0 where
  pub ssl_cert : String
  pub ssl_key : String
  pub ssl_verify : String
  pub log_file : String
  pub dll_alert : String
  pub lua_alert : String

module _ (J : Jsoncpp) where
  pub record Config : Type 0 where
    pub data_ : J.Value
    pub fname : String

  -- `data[section][key] = value`
  unfoldable pub put_setting : String → J.Value → String → J.Value → M J.Value
  put_setting section doc key value = do
    old ← lift (J.at doc section)
    new ← lift (J.set old key value)
    lift (J.set doc section new)

  -- `if (!data[section].isMember(key)) data[section][key] = value;`, where the section is there.
  unfoldable pub default_setting : String → J.Value → String × J.Value → M J.Value
  default_setting section doc (key, value) = do
    old ← lift (J.at doc section)
    there ← lift (J.is_member old key)
    if there then pure doc else put_setting section doc key value

  -- The first of the settings, which may find no section.
  unfoldable pub first_setting : String → J.Value → String × J.Value → M J.Value
  first_setting section doc (key, value) = do
    there ← lift (J.is_member doc section)
    if there then default_setting section doc (key, value) else put_setting section doc key value

  -- `if (!data.isMember(section)) data[section] = Json::Value(Json::objectValue);`
  unfoldable pub open_section : String → J.Value → M J.Value
  open_section section doc = do
    there ← lift (J.is_member doc section)
    if there then pure doc else lift (J.set doc section J.empty_object)

  abbrev pub ssl_cert_setting : Build → String × J.Value
  ssl_cert_setting build = ("SSL_cert", J.of_string build.ssl_cert)

  abbrev pub backend_settings : Build → List (String × J.Value)
  backend_settings build =
      ("SSL_key", J.of_string build.ssl_key)
      ∷ ("SSL_verify", J.of_string build.ssl_verify)
      ∷ ("SSL_verify_name", J.of_bool true)
      ∷ ("central_id", J.of_int (negsuc 0))
      ∷ ("pool_freq", J.of_int (pos 300))
      ∷ []

  abbrev pub db_settings : List (String × J.Value)
  db_settings =
      ("connection_string", J.of_string "localhost:3306")
      ∷ ("database_name", J.of_string "watcheddb")
      ∷ ("login", J.of_string "watched")
      ∷ ("password", J.of_string "watched")
      ∷ ("pool_size", J.of_int (pos 32))
      ∷ []

  -- What the constructor reads: null without a file, and an exception for one that does not parse.
  unfoldable pub read_file : Option String → M J.Value
  read_file file = cases file (pure J.null) λ text. lift (J.parse text)

  -- The settings of the backend that the document lacks.
  unfoldable pub complete : Build → J.Value → M J.Value
  complete build doc = do
    first ← first_setting "backend" doc (ssl_cert_setting build)
    fold_m (backend_settings build) first (default_setting "backend")

  -- `Config::Config`. `file` is what the file of that name holds; `none` if it cannot be read.
  unfoldable pub construct : Build → String → Option String → M Config
  construct build fname file = do
    read ← read_file file
    doc ← complete build read
    pure (record { data_ = doc; fname = fname })

  -- `Config::save`: the file, and what it holds afterwards.
  abbrev pub save : Config → String × String
  save c = (c.fname, J.print c.data_)

  -- `getAggregate`, `getAlerter`, `getCentral`, `getLog`. The pointer that they return is to the
  -- section of the document.
  unfoldable pub get_section : String → Config → M Config
  get_section section c = do doc ← open_section section c.data_; pure (record c { data_ = doc })

  abbrev pub get_aggregate : Config → M Config
  get_aggregate = get_section "aggregate"

  abbrev pub get_alerter : Config → M Config
  get_alerter = get_section "alerters"

  abbrev pub get_central : Config → M Config
  get_central = get_section "central"

  abbrev pub get_log : Config → M Config
  get_log = get_section "log"

  -- `Config::getDB`
  unfoldable pub get_db : Config → M Config
  get_db c = do
    opened ← open_section "db" c.data_
    doc ← fold_m db_settings opened (default_setting "db")
    pure (record c { data_ = doc })

  -- A call of one of the accessors.
  pub data Access : Type 0 where
    aggregate alerters central log_section db : Access

  unfoldable pub access : Config → Access → M Config
  access c aggregate = get_aggregate c
  access c alerters = get_alerter c
  access c central = get_central c
  access c log_section = get_log c
  access c db = get_db c

  -- A configuration that is read, and then used by the components that ask for their sections.
  unfoldable pub configure : Build → String → Option String → List Access → M Config
  configure build fname file calls = do c ← construct build fname file; fold_m calls c access
