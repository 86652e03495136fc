-- ===== src/HttpClient.antt =====
-- `HttpClient` of src/config.cpp: requests to one agent, with a retry, and the counters of their
-- outcomes, which are `uint32_t`. Simple-Web-Server answers through `Env.request`.
pub mod Counts
pub mod Retry
pub mod Keeps
mod Tests
use watched_back.Base.{
  ℕ, suc, ◌%◌, ◌^◌, String, ◌<>◌, Bool, true, false, not, ◌&&◌, Option, none, some, if◌then◌else◌,
}
use watched_back.World.{
  Exception, json_runtime_error, bad_query, std_exception, what, Outcome, returned, threw,
  undefined, requested,
}
use watched_back.Monad.{M, pure, lift, emit, ask_or_throw, catch, ◌>>=◌, ◌>>◌, cases, warning}
use watched_back.Json.{Jsoncpp}

pub record HttpClient : Type 0 where
  pub ok : ℕ
  pub failed : ℕ
  pub parse : ℕ
  pub use_ssl : Bool
  pub base_url : String

-- `++` of a `uint32_t`
abbrev pub next_u32 : ℕ → ℕ
next_u32 n = suc n % 2 ^ 32

-- A request's text, from the library.
abbrev pub answer_of : String → String → M String
answer_of option url =
    emit (requested option url) >> ask_or_throw λ e w. e.request w.trace option url

module _ (J : Jsoncpp) (cfg : J.Value) where
  unfoldable pub setting : String → M String
  setting key = do v ← lift (J.at cfg key); lift (J.as_string v)

  -- `HttpClient::HttpClient`. `exists` says whether `stat` finds a file.
  unfoldable pub construct : (String → Bool) → String → Bool → M HttpClient
  construct exists base_url wants_ssl = do
    key ← setting "SSL_key"
    cert ← setting "SSL_cert"
    verify ← setting "SSL_verify"
    let found = exists cert && exists verify && exists key
    let client : Bool → HttpClient =
        λ use_ssl. record { ok = 0; failed = 0; parse = 0; use_ssl = use_ssl; base_url = base_url }
    if wants_ssl && not found
        then (do
          warning "HttpClient::HttpClient"
              "Requiered certificate files not found, trying http instead"
          pure (client false))
        else pure (client (wants_ssl && found))

  -- `HttpClient::request`. With TLS, the settings are read anew for each request.
  unfoldable pub request : HttpClient → String → String → M String
  request c option path =
      if c.use_ssl
      then (do
        _ ← setting "SSL_key"
        _ ← setting "SSL_cert"
        _ ← setting "SSL_verify"
        v ← lift (J.at cfg "SSL_verify_name")
        _ ← lift (J.as_bool v)
        answer_of option (c.base_url <> path))
      else answer_of option (c.base_url <> path)

  -- The text of the answer: `none` where the retry failed too.
  unfoldable pub fetch : HttpClient → String → M (Option String)
  fetch c path =
      catch (do text ← request c "GET" path; pure (some text))
        λ _.
          catch (do text ← request c "GET" path; pure (some text))
            λ x. do
              warning "HttpClient::getJSON"
                  ("Failed to get " <> (c.base_url <> (path <> (" after a retry:" <> what x))))
              pure none

  -- `ss >> result`: only a `Json::RuntimeError` is caught.
  unfoldable pub read_answer :
      HttpClient → String → J.Value → String → Outcome J.Value → M (HttpClient × J.Value × Bool)
  read_answer c path result text (returned v) = pure (record c { ok = next_u32 c.ok }, v, true)
  read_answer c path result text (threw (json_runtime_error s)) = do
    warning "HttpClient::getJSON" ("Json parse failed for url : " <> (c.base_url <> path))
    pure (record c { parse = next_u32 c.parse }, J.unparsed result text, false)
  read_answer c path result text (threw (bad_query s)) = lift (threw (bad_query s))
  read_answer c path result text (threw (std_exception s)) = lift (threw (std_exception s))
  read_answer c path result text undefined = lift undefined

  -- `HttpClient::getJSON`: the client after it, the value of `result`, and what is returned.
  unfoldable pub get_json : HttpClient → String → J.Value → M (HttpClient × J.Value × Bool)
  get_json c path result = do
    answer ← fetch c path
    cases answer (pure (record c { failed = next_u32 c.failed }, result, false))
        (λ text. read_answer c path result text (J.parse text))

-- `HttpClient::resetCount`: the counters, and the client with none.
abbrev pub reset_count : HttpClient → (ℕ × ℕ × ℕ) × HttpClient
reset_count c = ((c.ok, c.failed, c.parse), record c { ok = 0; failed = 0; parse = 0 })
