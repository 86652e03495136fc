-- ===== src/AgentManager.antt =====
-- `agentManager` of src/agentManager.cpp: the agents of the database, and the thread of each.
pub mod Kept
pub mod Lists
pub mod Started
mod Tests
use watched_back.Base.{
  ℕ, suc, ◌%◌, ◌^◌, ◌-◌, ◌+◌, ℤ, pos, negsuc, lt_ℤ, String, ◌<>◌, Bool, true, false, ◌&&◌, Option,
  none, some, List, [], ◌∷◌, ◌==◌, ltb, str_eq, if◌then◌else◌, to_string, is_some,
}
use watched_back.Double.{Double}
use watched_back.World.{Query, query, int, double, Row, Outcome, returned, undefined}
use watched_back.Monad.{
  M, pure, store, ◌>>=◌, ◌>>◌, cases, column, to_uint, now, my_exec, attempt, fold_while, error,
  info, notice,
}
use watched_back.Json.{Jsoncpp}
use watched_back.Json.Read.{int_at}
use watched_back.DbTools.{with_connection, release}
use watched_back.DbTools.Get.{get_backend}
use watched_back.AgentClient.{AgentClient}
use watched_back.AgentClient.Api.{init_agent}
use watched_back.AgentClient.Thread.{new_agent, start_thread as start_agent}
use watched_back.StatAggregator.{StatAggregator, ready}
use watched_back.StatAggregator.Thread.{start_thread as start_aggregator}

-- The `int32_t` that a `uint32_t` converts to.
abbrev to_i32 : ℕ → ℤ
to_i32 n = if ltb n (2 ^ 31) then pos n else negsuc (2 ^ 32 - suc n)

abbrev pub agents_query : ℤ → Query
agents_query domains =
    if lt_ℤ (pos 0) domains
    then query "select id from c$agents where central_id=%0:id" (("id", int domains) ∷ [])
    else query "select id from c$agents" []

abbrev insert_status : ℤ → Double → Query
insert_status back_id ts =
    query
      "insert into b$history(back_id, timestamp, failed, ok) values(%0:id, %1:ts, 0, 1) on duplicate key update failed=0, ok=1"
      (("id", int back_id) ∷ ("ts", double ts) ∷ [])

abbrev insert_failed : Double → Query
insert_failed ts =
    query
      "insert into b$history select back_id, %0:ts-300000 timestamp, 1 failed, 0 ok from (select max(timestamp) ts, back_id from b$history group by back_id) x where x.ts<%0:ts-600000"
      (("ts", double ts) ∷ [])

-- `std::map<uint32_t, …>`, in the order of the keys.
abbrev pub agent_of : {A : Type 0} → List (ℕ × A) → ℕ → Option A
agent_of [] k = none
agent_of ((j, a) ∷ m) k = if j == k then some a else agent_of m k

abbrev pub put_agent : {A : Type 0} → List (ℕ × A) → ℕ → A → List (ℕ × A)
put_agent [] k a = (k, a) ∷ []
put_agent ((j, b) ∷ m) k a =
    let rest = put_agent m k a in
    if j == k then (j, a) ∷ m else if ltb k j then (k, a) ∷ (j, b) ∷ m else (j, b) ∷ rest

module _ (J : Jsoncpp) where
  -- `aggreg` is null until `init`.
  pub record AgentManager : Type 0 where
    pub address : ℕ
    pub agents : List (ℕ × AgentClient J)
    pub aggreg : Option StatAggregator
    pub back_id : ℤ

  -- The constructor.
  abbrev pub new_manager : ℕ → AgentManager
  new_manager this = record { address = this; agents = []; aggreg = none; back_id = pos 0 }

  -- The clients that are ready and have no thread get one; the ids of those.
  abbrev pub start_agents : List (ℕ × AgentClient J) → List (ℕ × AgentClient J) × List ℕ
  start_agents [] = ([], [])
  start_agents ((id, a) ∷ m) =
      let (rest, ids) = start_agents m in
      let (b, starts) = start_agent J a in ((id, b) ∷ rest, if starts then id ∷ ids else ids)

  abbrev pub threads_of :
      AgentManager → Option StatAggregator → Outcome (AgentManager × List ℕ × Bool)
  threads_of m none = undefined
  threads_of m (some g) =
      let (agents, ids) = start_agents m.agents in
      let (aggreg, starts) = start_aggregator g in
      returned (record m { agents = agents; aggreg = some aggreg }, ids, starts)

  -- `agentManager::startThreads`: the ids of the agents whose threads it starts, and whether it
  -- starts the aggregator's. Without an aggregator it is undefined.
  unfoldable pub start_threads : AgentManager → Outcome (AgentManager × List ℕ × Bool)
  start_threads m = threads_of m m.aggreg

  -- The map and the `uint16_t` count of `updateAgents`.
  abbrev pub Found : Type 0
  Found = List (ℕ × AgentClient J) × ℕ

  -- `address_of` is where a new client is put, by the agent's id. `torn` is what an exception that
  -- leaves `init` has made of the client, which the map keeps.
  module _ (cfg : J.Value) (exists : String → Bool) (address_of : ℕ → ℕ)
      (torn : AgentClient J → AgentClient J) where
    abbrev caught : Query → {S : Type 0} → S → M S → M (S × Bool)
    caught q = attempt q "agentManager::updateAgents" "Failed to get agents list"

    -- An agent that the map lacks.
    unfoldable pub add_agent : Query → Found → ℕ → M (Found × Bool)
    add_agent q (agents, count) id =
        let fresh = new_agent J (address_of id) id in
        caught q (put_agent agents id (torn fresh), count)
          (do a ← init_agent J cfg exists fresh; pure (put_agent agents id a, suc count % 2 ^ 16))

    unfoldable pub find_agent : Query → Found → Row → M (Found × Bool)
    find_agent q found row = do
      (id, on) ← caught q 0 (do s ← column row 0; to_uint s)
      if on
          then if is_some (agent_of found.0 id) then pure (found, true) else add_agent q found id
          else pure (found, false)

    -- The query for the agents, to the end of its `myqCatch`.
    unfoldable pub find_agents : Query → List (ℕ × AgentClient J) → M (List (ℕ × AgentClient J))
    find_agents q agents = do
      (answer, on) ← caught q none (do res ← store q; pure (some res))
      cases answer (pure agents) λ res.
          cases res
            (do error "agentManager::updateAgents" "Could not query for agent list"; pure agents)
            (λ rows. do
              ((after, count), complete) ← fold_while rows (agents, 0) (find_agent q)
              (if complete && ltb 0 count
                  then info "agentManager::updateAgents"
                      ("Started " <> (to_string count <> " agents"))
                  else pure tt)
              pure after)

    -- `agentManager::updateAgents`
    unfoldable pub update_agents : AgentManager → M AgentManager
    update_agents m = with_connection m.address "agentManager::updateAgents" m (do
      domains ← int_at J cfg "central_id"
      agents ← find_agents (agents_query domains) m.agents
      ts ← now
      my_exec (insert_status m.back_id ts) "agentManager::updateAgents"
          "Failed to insert self status"
      my_exec (insert_failed ts) "agentManager::updateAgents"
          "Failed to insert failed backends status"
      release m.address
      pure (record m { agents = agents }))

    -- `agentManager::init`. `host` is what `getCurrentHost` says, "" if it fails; `full` is the path
    -- that `realpath` gives, or the file's name if it fails; `aggregator` is the new object's address.
    unfoldable pub init : String → String → String → ℕ → AgentManager → M AgentManager
    init host me full aggregator m = do
      id ← get_backend m.address (if str_eq host "" then me else host) full
      updated ← update_agents (record m { back_id = to_i32 id; aggreg = some (ready aggregator) })
      notice "agentManager::init" "Backend started and ready"
      pure updated
