-- ===== src/AgentClient/Ressources.antt =====
-- `agentClient::createRessources` of src/agentClient.cpp: a client for each metric that the agent's
-- API documents.
use watched_back.Base.{
  ℕ, String, Bool, false, not, ◌||◌, List, [], ◌∷◌, ◌++◌, ◌==◌, str_eq, if◌then◌else◌, map,
}
use watched_back.World.{Query, query, text, uint}
use watched_back.Monad.{M, pure, lift, ◌>>=◌, ◌>>◌, fold_m, my_exec}
use watched_back.Json.{Jsoncpp}
use watched_back.Json.Read.{string_at, walk}
use watched_back.DbTools.{with_connection}
use watched_back.DbTools.Have.{have_ressource}
use watched_back.DbTools.Get.{get_ressource_id, get_host, get_service}
use watched_back.Ressource.{Ressource, State, update_defs, init}
use watched_back.AgentClient.Paths.{ressource_of, after_slash, is_history}

abbrev pub insert_ressource : String → String → String → Query
insert_ressource name origin tbl =
    query "insert into c$ressources(name, origin, data_type) values(%0q:name,%1q:ori,%2q:tbl)"
      (("name", text name) ∷ ("ori", text origin) ∷ ("tbl", text tbl) ∷ [])

abbrev pub service_ressource : ℕ → ℕ → Query
service_ressource serv_id res_id =
    query
      "insert into s$ressources(serv_id,res_id) values (%0:srv,%1:res) ON DUPLICATE KEY UPDATE res_id=res_id"
      (("srv", uint serv_id) ∷ ("res", uint res_id) ∷ [])

abbrev pub host_ressource : ℕ → ℕ → Query
host_ressource host_id res_id =
    query
      "insert into h$ressources(host_id,res_id) values (%0:host,%1:res) ON DUPLICATE KEY UPDATE res_id=res_id"
      (("host", uint host_id) ∷ ("res", uint res_id) ∷ [])

-- The clients of the agent's metrics.
abbrev pub Clients : Type 0
Clients = List (Ressource × State)

abbrev pub has_client : String → Clients → Bool
has_client key [] = false
has_client key ((r, s) ∷ cs) = str_eq r.baseurl key || has_client key cs

-- `updateDefs` of the clients of the path.
abbrev pub refresh : String → List String → Clients → Clients
refresh key columns cs =
    map (λ c. if str_eq c.0.baseurl key then (c.0, update_defs c.0 columns c.1) else c) cs

abbrev pub new_state : State
new_state = record { def_keys = []; base_insert = ""; event_factory = []; current_events = [] }

module _ (J : Jsoncpp) (this : ℕ) (api : J.Value) where
  -- The row that ties the ressource to its service or host: the service's id, or the host's.
  unfoldable pub tie : J.Value → Bool → ℕ → ℕ → M ℕ
  tie i of_service hostid resid =
      if of_service
      then (do
        service ← string_at J i "x-service"
        servid ← get_service this hostid service
        my_exec (service_ressource servid resid) "agentClient::createRessources"
            "Failed to insert s$ressources"
        pure servid)
      else (do
        my_exec (host_ressource hostid resid) "agentClient::createRessources"
            "Failed to insert h$ressources"
        pure hostid)

  -- A new client, with its events and rules loaded.
  unfoldable pub new_client :
      J.Value → Bool → ℕ → ℕ → String → String → List String → M (Ressource × State)
  new_client i of_service owner resid key tbl columns = do
    service ← (if of_service then string_at J i "x-service" else pure "")
    let r : Ressource = record {
      is_service = of_service;
      host_id = owner;
      res_id = resid;
      baseurl = key;
      table = tbl;
      serv_name = service;
    }
    s ← init r columns new_state
    pure (r, s)

  -- The rest of a round, for a path that is not skipped.
  unfoldable pub register : String → J.Value → String × String → Clients → M Clients
  register key i (origin, name) cs = do
    items ← walk J i ("get" ∷ "responses" ∷ "200" ∷ "schema" ∷ "items" ∷ [])
    ref ← string_at J items "$ref"
    let tbl = after_slash ref
    known ← have_ressource this origin name
    (if known
        then pure tt
        else my_exec (insert_ressource name origin tbl) "agentClient::createRessources"
            "Failed to insert ressource")
    resid ← get_ressource_id this origin name
    host ← string_at J i "x-host"
    hostid ← get_host this host
    if resid == 0 then pure cs else (do
      of_service ← lift (J.is_member i "x-service")
      owner ← tie i of_service hostid resid
      properties ← walk J api ("definitions" ∷ tbl ∷ "properties" ∷ [])
      let columns = J.keys properties
      if has_client key cs
          then pure (refresh key columns cs)
          else (do c ← new_client i of_service owner resid key tbl columns; pure (cs ++ c ∷ [])))

  unfoldable pub create_ressource : J.Value → Clients → String → M Clients
  create_ressource paths cs key = do
    named ← lift (ressource_of key)
    if not (is_history key) then pure cs else (do
      i ← lift (J.at paths key)
      get ← lift (J.is_member i "get")
      if get then register key i named cs else pure cs)

  -- `agentClient::createRessources`
  unfoldable pub create_ressources : Clients → M Clients
  create_ressources cs =
      with_connection this "agentClient::createRessources" cs
        (do paths ← lift (J.at api "paths"); fold_m (J.keys paths) cs (create_ressource paths))
