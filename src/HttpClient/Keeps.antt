-- ===== src/HttpClient/Keeps.antt =====
-- What an invariant of the world needs so that a client's requests keep it.
use watched_back.Base.{String}
use watched_back.World.{
  World, Outcome, requested, returned, threw, undefined, json_runtime_error, bad_query,
  std_exception,
}
use watched_back.Monad.Keeps.{
  Keeps, Allows, AllowsLog, keeps_rules, bind-Keeps, pure-Keeps, lift-Keeps, cases-Keeps,
}
use watched_back.Json.{Jsoncpp}
use watched_back.HttpClient.{HttpClient, setting, request, fetch, read_answer, get_json}

-- An invariant that admits requests and log lines.
pub record AllowsRequests (P : World → Type 0) : Type 0 where
  pub log : AllowsLog P
  pub requests : (method path : String) → Allows P (requested method path)

module _ {P : World → Type 0} (J : Jsoncpp) (cfg : J.Value) where
  setting-Keeps : (key : String) → Keeps P (setting J cfg key)
  unfolding setting
  setting-Keeps key = search keeps_rules

  request-Keeps :
      (c : HttpClient) (option path : String)
      → AllowsRequests P
      → Keeps P (request J cfg c option path)
  unfolding request
  request-Keeps c option path k = search (keeps_rules, setting-Keeps, k.requests) depth 12

  fetch-Keeps : (c : HttpClient) (path : String) → AllowsRequests P → Keeps P (fetch J cfg c path)
  unfolding fetch
  fetch-Keeps c path k = search (keeps_rules, request-Keeps, k.log) depth 9

  read_answer-Keeps :
      (c : HttpClient) (path : String) (result : J.Value) (text : String) (o : Outcome J.Value)
      → AllowsRequests P
      → Keeps P (read_answer J cfg c path result text o)
  unfolding read_answer
  read_answer-Keeps c path result text (returned v) k = pure-Keeps _
  read_answer-Keeps c path result text (threw (json_runtime_error s)) k =
      search (keeps_rules, k.log)
  read_answer-Keeps c path result text (threw (bad_query s)) k = lift-Keeps _
  read_answer-Keeps c path result text (threw (std_exception s)) k = lift-Keeps _
  read_answer-Keeps c path result text undefined k = lift-Keeps _

  pub get_json-Keeps :
      (c : HttpClient) (path : String) (result : J.Value)
      → AllowsRequests P
      → Keeps P (get_json J cfg c path result)
  unfolding get_json
  get_json-Keeps c path result k = bind-Keeps _ _ (fetch-Keeps c path k) λ answer.
      cases-Keeps answer _ _ (pure-Keeps _)
        λ text. read_answer-Keeps c path result text (J.parse text) k
