-- ===== src/AgentClient/Api.antt =====
-- `agentClient::init` and `agentClient::updateApi` of src/agentClient.cpp: the agent's address, and
-- the API that it documents.
use Prim.Native.Char.{code}
use watched_back.Base.{
  ℕ, ◌+◌, ◌-◌, ◌*◌, String, ◌<>◌, Bool, true, false, ◌&&◌, ◌||◌, Option, none, some, List, [], ◌∷◌,
  ◌++◌, ltb, leb, ◌==◌, str_eq, if◌then◌else◌, to_string,
}
use watched_back.World.{Query, query, uint, Row}
use watched_back.Monad.{
  M, pure, lift, store, ◌>>=◌, ◌>>◌, cases, first_row, fold_m, column, to_uint, my_catch,
  fold_caught, error, info,
}
use watched_back.Json.{Jsoncpp}
use watched_back.DbTools.{with_connection, release}
use watched_back.Ressource.{Ressource, State}
use watched_back.HttpClient.{construct, get_json, reset_count}
use watched_back.AgentClient.{AgentClient}
use watched_back.AgentClient.Counter.{update_counter}
use watched_back.AgentClient.Ressources.{Clients, create_ressources}
use watched_back.AgentClient.Tables.{create_tables}

-- `std::find` of a path among the keys.
abbrev pub has_path : String → List String → Bool
has_path p [] = false
has_path p (k ∷ ks) = str_eq p k || has_path p ks

abbrev pub agent_query : ℕ → Query
agent_query id =
    query "select host, port, pool_freq, use_ssl from c$agents where id=%0:id"
      (("id", uint id) ∷ [])

abbrev blank : ℕ → Bool
blank c = (c == 32) || (leb 9 c && leb c 13)

abbrev is_digit : ℕ → Bool
is_digit c = leb b'0' c && leb c b'9'

abbrev atoi_digits : ℕ → String → ℕ
atoi_digits n String.[] = n
atoi_digits n (String.◌∷◌ c s) =
    let more = atoi_digits (n * 10 + (code c - b'0')) s in if is_digit (code c) then more else n

-- Whether `atoi` of a text is 1. (Of more digits than an `int` has, it is undefined.)
abbrev pub atoi_is_one : String → Bool
atoi_is_one String.[] = false
atoi_is_one (String.◌∷◌ c s) =
    let rest = atoi_is_one s in
    if blank (code c)
    then rest
    else if code c == b'+'
    then atoi_digits 0 s == 1
    else atoi_digits 0 (String.◌∷◌ c s) == 1

-- What `init` reads from the agent's row.
pub record Settings : Type 0 where
  pub baseurl : String
  pub pool_freq : ℕ
  pub use_ssl : Bool

-- The assignments from the row, one by one: an exception leaves those before it.
pub data Step : Type 0 where
  read_host : Step
  read_port : Step
  read_freq : Step
  read_ssl : Step

unfoldable pub read_setting : Row → Settings → Step → M Settings
read_setting row s read_host = do
  host ← column row 0
  pure (record s { baseurl = if str_eq host "localhost" then "127.0.0.1:" else host <> ":" })
read_setting row s read_port = do
  port ← column row 1
  pure (record s { baseurl = s.baseurl <> port })
read_setting row s read_freq = do
  text ← column row 2
  freq ← to_uint text
  pure (record s { pool_freq = freq })
read_setting row s read_ssl = do
  ssl ← column row 3
  pure (record s { use_ssl = if atoi_is_one ssl then true else s.use_ssl })

-- `none` where the query has no result, which ends `init`.
unfoldable pub read_settings : ℕ → Settings → M (Option Settings)
read_settings id s = do
  let q = agent_query id
  let msg : String = "Failed to get agent configuration"
  answer ← my_catch q "agentClient::init" msg (do res ← store q; pure (some res))
  cases answer (pure (some s)) λ res.
      cases res
        (do
          error "agentClient::createTables" ("Cannot look for agent id=" <> to_string id)
          pure none)
        (λ rows. do
          row ← first_row rows
          read ←
              fold_caught q "agentClient::init" msg
                (read_host ∷ read_port ∷ read_freq ∷ read_ssl ∷ []) s (read_setting row)
          pure (some read))

module _ (J : Jsoncpp) (cfg : J.Value) where
  -- One round of `remove_if`: the clients whose path the API still has.
  unfoldable pub keep_client : J.Value → Clients → Ressource × State → M Clients
  keep_client api kept c = do
    paths ← lift (J.at api "paths")
    pure (if has_path c.0.baseurl (J.keys paths) then kept ++ c ∷ [] else kept)

  -- What `updateApi` does once it has the API.
  unfoldable pub rebuild : AgentClient J → M (AgentClient J)
  rebuild a = do
    cs ← create_ressources J a.address a.api a.ressources
    create_tables J a.address a.api
    kept ← fold_m cs [] (keep_client a.api)
    info "agentClient::updateApi"
        ("Agent " <> (to_string a.id <> ("(" <> (a.baseurl <> "), API knowledge updated"))))
    release a.address
    pure (record a { ressources = kept })

  -- `agentClient::updateApi`, of a client that is ready.
  unfoldable pub update_ready : AgentClient J → M (AgentClient J)
  update_ready a = do
    let ((ok, missing, parse), fresh) = reset_count a.client
    (if ltb 0 ok || ltb 0 missing || ltb 0 parse
        then update_counter a.address a.id ok missing parse
        else pure tt)
    (client, api, got) ← get_json J cfg fresh "/api/swagger.json" a.api
    let asked = record a { client = client; api = api }
    if got then rebuild asked else pure asked

  -- `agentClient::init`. `exists` says whether `stat` finds a file.
  unfoldable pub init_agent : (String → Bool) → AgentClient J → M (AgentClient J)
  init_agent exists a =
      if a.ready
      then pure a
      else with_connection a.address "agentClient::init" a (do
        found ←
            read_settings a.id
              (record { baseurl = a.baseurl; pool_freq = a.pool_freq; use_ssl = false })
        cases found (pure a) λ s. do
          client ← construct J cfg exists s.baseurl s.use_ssl
          update_ready (record a {
            baseurl = s.baseurl;
            pool_freq = s.pool_freq;
            client = client;
            ready = true;
          }))

  -- `agentClient::updateApi`
  unfoldable pub update_api : (String → Bool) → AgentClient J → M (AgentClient J)
  update_api exists a = if a.ready then update_ready a else init_agent exists a
