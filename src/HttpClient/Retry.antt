-- ===== src/HttpClient/Retry.antt =====
-- What a failed request means for a client without TLS.
use watched_back.Base.{◌≡◌, refl, sym, ◌∙◌, String, ◌<>◌, false, none, some, arith}
use watched_back.World.{
  Env, World, Exception, what, Outcome, returned, threw, requested, logged, add_event,
}
use watched_back.Monad.{run, cases}
use watched_back.Monad.Runs.{bind_run}
use watched_back.Json.{Jsoncpp}
use watched_back.HttpClient.{HttpClient, next_u32, request, fetch, get_json}

-- A GET of the client.
abbrev pub asked : HttpClient → String → World → World
asked c path w = add_event w (requested "GET" (c.base_url <> path))

-- What the library answers to a GET that follows the world's history.
abbrev pub answer : HttpClient → String → Env → World → Outcome String
answer c path e w = e.request (asked c path w).trace "GET" (c.base_url <> path)

module _ (J : Jsoncpp) (cfg : J.Value) (c : HttpClient) (path : String) (e : Env) (w : World) where
  fetch-returned :
      (text : String)
      → c.use_ssl ≡ false
      → answer c path e w ≡ returned text
      → run (fetch J cfg c path) e w ≡ (returned (some text), asked c path w)
  unfolding run fetch request
  fetch-returned text plain a = ground (arith, plain, a)

  fetch-retried :
      (x : Exception) (text : String)
      → c.use_ssl ≡ false
      → answer c path e w ≡ threw x
      → answer c path e (asked c path w) ≡ returned text
      → run (fetch J cfg c path) e w ≡ (returned (some text), asked c path (asked c path w))
  unfolding run fetch request
  fetch-retried x text plain a b = ground (arith, plain, a, b)

  fetch-failed :
      (x y : Exception)
      → c.use_ssl ≡ false
      → answer c path e w ≡ threw x
      → answer c path e (asked c path w) ≡ threw y
      → run (fetch J cfg c path) e w ≡ (
        returned none,
        add_event (asked c path (asked c path w)) (
            logged 2 "HttpClient::getJSON"
              ("Failed to get " <> (c.base_url <> (path <> (" after a retry:" <> what y))))),
      )
  unfolding run fetch request
  fetch-failed x y plain a b = ground (arith, plain, a, b)

-- A client without TLS whose first request fails with an exception and whose second is answered:
-- `getJSON` then does, gives and counts just what it would if the second request were its first.
pub get_json_retried :
    (J : Jsoncpp) (cfg : J.Value) (c : HttpClient) (path : String) (result : J.Value) (e : Env)
    (w : World) (x : Exception) (text : String)
    → c.use_ssl ≡ false
    → answer c path e w ≡ threw x
    → answer c path e (asked c path w) ≡ returned text
    → run (get_json J cfg c path result) e w ≡ run (get_json J cfg c path result) e (asked c path w)
unfolding get_json
get_json_retried J cfg c path result e w x text plain a b =
    bind_run (fetch J cfg c path) _ e w _ _ (fetch-retried J cfg c path e w x text plain a b)
    ∙ sym (
        bind_run (fetch J cfg c path) _ e _ _ _
          (fetch-returned J cfg c path e (asked c path w) text plain b))

-- A client without TLS whose request fails twice: `getJSON` returns false after exactly two
-- requests and one warning, which has the second reason; only `failed` counts it, and `result` is
-- not touched.
pub get_json_failed :
    (J : Jsoncpp) (cfg : J.Value) (c : HttpClient) (path : String) (result : J.Value) (e : Env)
    (w : World) (x y : Exception)
    → c.use_ssl ≡ false
    → answer c path e w ≡ threw x
    → answer c path e (asked c path w) ≡ threw y
    → run (get_json J cfg c path result) e w ≡ (
      returned (record c { failed = next_u32 c.failed }, result, false),
      add_event (asked c path (asked c path w)) (
          logged 2 "HttpClient::getJSON"
            ("Failed to get " <> (c.base_url <> (path <> (" after a retry:" <> what y))))),
    )
unfolding get_json cases
get_json_failed J cfg c path result e w x y plain a b =
    bind_run (fetch J cfg c path) _ e w _ _ (fetch-failed J cfg c path e w x y plain a b)
    ∙ unfold run in refl
