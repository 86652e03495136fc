-- ===== src/AgentClient/Collect.antt =====
-- `agentClient::collect` of src/agentClient.cpp: what the agent reports since the last time.
use watched_back.Base.{
  ℕ, zero, suc, String, ◌<>◌, List, [], ◌∷◌, ◌++◌, ltb, ◌==◌, if◌then◌else◌, split_on,
}
use watched_back.Double.{Double, trunc, double_to_string}
use watched_back.World.{Query, query, uint, double, Outcome, returned, undefined}
use watched_back.Monad.{M, pure, lift, ◌>>=◌, ◌>>◌, fold_m, my_exec, now}
use watched_back.Json.{Jsoncpp}
use watched_back.Json.Read.{double_at, walk}
use watched_back.DbTools.{with_connection, release}
use watched_back.Ressource.{Ressource, State}
use watched_back.Ressource.Parse.{Manager, parse}
use watched_back.HttpClient.{get_json}
use watched_back.AgentClient.{AgentClient}
use watched_back.AgentClient.Service.{collect_service}

-- `hosts.insert(id)` of a `std::set`, whose iteration is by increasing ids.
abbrev pub insert_id : ℕ → List ℕ → List ℕ
insert_id id [] = id ∷ []
insert_id id (h ∷ hs) =
    if id == h then h ∷ hs else if ltb id h then id ∷ h ∷ hs else h ∷ insert_id id hs

abbrev pub missing_history : Double → ℕ → Query
missing_history ts host_id =
    query
      "insert into s$history select s.id as serv_id, %0:t as timestamp, 0 as failed, ifnull(p.cnt,0)+ifnull(o.cnt,0) as missing, 0 as ok from s$services s left join (select serv_id, count(*) as cnt from s$process group by serv_id) p on s.id=p.serv_id left join (select serv_id, count(*) as cnt from s$sockets group by serv_id) o on s.id=o.serv_id where s.id not in (select serv_id from s$history where timestamp>=%0:t) and host_id=%1:h"
      (("t", double ts) ∷ ("h", uint host_id) ∷ [])

-- `strings[n]`, which is undefined past the end.
abbrev pub string_of : List String → ℕ → Outcome String
string_of [] n = undefined
string_of (s ∷ ss) zero = returned s
string_of (s ∷ ss) (suc n) = string_of ss n

-- The keys under which the report has a client's samples.
unfoldable pub samples_path : Ressource → M (List String)
samples_path r = do
  let strings = split_on b'/' "" r.baseurl
  if r.is_service
      then (do
        a ← lift (string_of strings 3)
        b ← lift (string_of strings 4)
        pure ("services" ∷ r.serv_name ∷ "collectors" ∷ a ∷ b ∷ []))
      else (do
        a ← lift (string_of strings 2)
        b ← lift (string_of strings 3)
        pure ("system" ∷ a ∷ b ∷ []))

module _ (J : Jsoncpp) (alert : Manager) where
  -- The loop over the services, and the one over their hosts.
  unfoldable pub collect_services : ℕ → Double → J.Value → M (Unit {0})
  collect_services this ts report = do
    services ← lift (J.at report "services")
    hosts ← fold_m (J.keys services) [] λ hosts key. do
      host_id ← collect_service J this alert ts services key
      pure (insert_id host_id hosts)
    fold_m hosts tt λ _ host_id.
        my_exec (missing_history ts host_id) "servicesClient::collect"
          "Failed to insert missing history"

  unfoldable pub collect_ressource :
      J.Value → List (Ressource × State) → Ressource × State → M (List (Ressource × State))
  collect_ressource report done (r, s) = do
    path ← samples_path r
    samples ← walk J report path
    s' ← parse J r alert samples s
    pure (done ++ (r, s') ∷ [])

  unfoldable pub collect_all : AgentClient J → Double → J.Value → M (AgentClient J)
  collect_all a ts report = do
    collect_services a.address ts report
    rs ← fold_m a.ressources [] (collect_ressource report)
    pure (record a { ressources = rs })

  -- `agentClient::collect`. `cfg` is `back_cfg`.
  unfoldable pub collect : J.Value → AgentClient J → M (AgentClient J)
  collect cfg a = do
    ts ← now
    (client, report, got) ←
        get_json J cfg a.client ("/all?since=" <> double_to_string (trunc a.since)) J.null
    let asked = record a { client = client }
    if got
        then (do
          since ← double_at J report "timestamp"
          let told = record asked { since = since }
          with_connection a.address "agentClient::collect" told (collect_all told ts report))
        else pure asked

-- One round of an agent's thread: `collect`, then `release`.
unfoldable pub collect_round : (J : Jsoncpp) → Manager → J.Value → AgentClient J → M (Unit {0})
collect_round J alert cfg a = do a' ← collect J alert cfg a; release a.address
