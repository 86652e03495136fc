-- ===== src/AgentManager/Lists.antt =====
-- The agents that `updateAgents` has when the database answers and the new agents start.
use watched_back.Base.{
  clash, ◌&&◌, ℕ, ℤ, ◌≡◌, refl, sym, subst, ◌∙◌, ap, Bool, true, false, ◌||◌, Option, none, some,
  List, [], ◌∷◌, ◌==◌, ==_iff, is_some, arith, ltb, String, map, All, Bool-cases, inl, inr,
}
use watched_back.World.{Query, Row, Trace, returned, Env}
use watched_back.Monad.{fold_while, cases, attempt, column, to_uint, ◌>>=◌}
use watched_back.Monad.Settles.{Defined, attempt_well-Returns, my_exec-Returns}
use watched_back.Monad.Returns.{
  ask_or_throw-Returns, if_cases-Returns, implies-Returns, emit-Returns, ask-Returns, store-Returns,
  lift-Returns, if-Returns, Returns, pure-Returns, bind-Returns, lift-Returns, cases-some-Returns,
}
use watched_back.Json.{Jsoncpp}
use watched_back.DbTools.Connected.{Lends, with_connection-Returns, release-Returns}
use watched_back.AgentClient.{AgentClient}
use watched_back.AgentClient.Thread.{new_agent}
use watched_back.AgentClient.Api.{init_agent}
use watched_back.AgentManager.{
  agent_of, put_agent, AgentManager, Found, agents_query, add_agent, find_agent, find_agents,
  update_agents,
}
use watched_back.AgentManager.Kept.{
  Kept, Kept-refl, Kept-trans, put-Kept, agent_of-put_other, is_some-none,
}

abbrev pub has_id : List ℕ → ℕ → Bool
has_id [] k = false
has_id (j ∷ ids) k = (j == k) || has_id ids k

-- The database answers with these rows, and the first field of each is the id.
pub record Lists (e : Env) (q : Query) (rows : List Row) (id : Row → ℕ) : Type 0 where
  pub store : (t : Trace) → e.store t q ≡ returned (some rows)
  pub ids :
      All (λ r. (s : String) × (e.column r 0 ≡ returned s) × (e.to_uint s ≡ returned (id r))) rows

module _ {A : Type 0} where
  agent_of-put : (m : List (ℕ × A)) (k : ℕ) (a : A) → agent_of (put_agent m k a) k ≡ some a
  agent_of-put [] k a = ground (arith, ==_iff k k)
  agent_of-put ((j, b) ∷ m) k a = ground (arith, ==_iff j k, ==_iff k k, agent_of-put m k a)

  is_some-put :
      (m : List (ℕ × A)) (i k : ℕ) (a : A)
      → is_some (agent_of (put_agent m i a) k) ≡ (is_some (agent_of m k) || (i == k))
  is_some-put m i k a = elim (Bool-cases (i == k)) [
    | inl same ↦ ground (arith, ==_iff i k, agent_of-put m k a)
    | inr differs ↦ ground (arith, agent_of-put_other m i k a differs)
  ]

  is_some-there :
      (m : List (ℕ × A)) (i k : ℕ)
      → is_some (agent_of m i) ≡ true
      → is_some (agent_of m k) ≡ (is_some (agent_of m k) || (i == k))
  is_some-there m i k h = elim (Bool-cases (i == k)) [
    | inl same ↦ ground (arith, ==_iff i k)
    | inr differs ↦ ground arith
  ]

-- The agents are those of before, as they were, and those with the ids.
pub record ListsOf {A : Type 0} (before after : List (ℕ × A)) (ids : List ℕ) : Type 0 where
  pub kept : Kept before after
  pub exact : (k : ℕ) → is_some (agent_of after k) ≡ (is_some (agent_of before k) || has_id ids k)

module _ {A : Type 0} where
  none-ListsOf : (m : List (ℕ × A)) → ListsOf m m []
  none-ListsOf m = record { kept = Kept-refl m; exact = λ k. ground arith }

  -- One id, and then the others.
  more-ListsOf :
      (a b c : List (ℕ × A)) (i : ℕ) (ids : List ℕ)
      → ListsOf a b (i ∷ [])
      → ListsOf b c ids
      → ListsOf a c (i ∷ ids)
  more-ListsOf a b c i ids f g = record {
    kept = Kept-trans a b c f.kept g.kept;
    exact = λ k. ground (arith, f.exact k, g.exact k);
  }

-- What `find_agent` returns where nothing throws.
abbrev Goes : {A : Type 0} → List (ℕ × A) → List ℕ → (List (ℕ × A) × ℕ) × Bool → Type 0
Goes before ids (found, on) = (on ≡ true) × ListsOf before found.0 ids

module _ (J : Jsoncpp) (cfg : J.Value) (exists : String → Bool) (address_of : ℕ → ℕ)
    (torn : AgentClient J → AgentClient J) (e : Env) where
  -- A new client whose `init` comes to its end.
  abbrev pub Starts : ℕ → Type 0
  Starts id = Returns e (λ _. Unit {0}) (init_agent J cfg exists (new_agent J (address_of id) id))

  -- The first field of a row is the id of an agent that starts.
  abbrev pub Names : Row → ℕ → Type 0
  Names row id =
      (s : String) × (e.column row 0 ≡ returned s) × (e.to_uint s ≡ returned id) × Starts id

  module _ (q : Query) where
    add_agent-Returns :
        (agents : List (ℕ × AgentClient J)) (count id : ℕ)
        → agent_of agents id ≡ none
        → Starts id
        → Returns e
            (Goes agents (id ∷ []))
            (add_agent J cfg exists address_of torn q (agents, count) id)
    unfolding add_agent
    add_agent-Returns agents count id h starts =
        attempt_well-Returns {Q = λ (f : Found J). ListsOf agents f.0 (id ∷ [])} q _ _ _ _ (
          bind-Returns _ _ starts λ a _. pure-Returns _ record {
            kept = put-Kept agents id a h;
            exact = λ k. ground (arith, is_some-put agents id k a);
          })

    read_id-Returns :
        (row : Row) (id : ℕ)
        → Names row id
        → Returns e
            (λ (r : ℕ × Bool). (r.1 ≡ true) × (r.0 ≡ id))
            (attempt q "agentManager::updateAgents" "Failed to get agents list" 0
              (do s ← column row 0; to_uint s))
    read_id-Returns row id (s, cell, number, starts) =
        attempt_well-Returns {Q = λ k. k ≡ id} q _ _ _ _ (
          bind-Returns {R = λ t. t ≡ s} _ _ (ask_or_throw-Returns _ (λ w. (s, cell, refl)))
            λ t same. ask_or_throw-Returns _ (λ w. (id, ap e.to_uint same ∙ number, refl)))

    find_agent-Returns :
        (agents : List (ℕ × AgentClient J)) (count : ℕ) (row : Row) (id : ℕ)
        → Names row id
        → Returns e
            (Goes agents (id ∷ []))
            (find_agent J cfg exists address_of torn q (agents, count) row)
    unfolding find_agent
    find_agent-Returns agents count row id named =
        bind-Returns _ _ (read_id-Returns row id named) λ (k, on) (went, same).
          if_cases-Returns on _ _
            (λ _.
              implies-Returns
                (if_cases-Returns {Q = Goes agents (k ∷ [])} (is_some (agent_of agents k)) _ _
                  (λ there.
                    pure-Returns ((agents, count), true)
                      (
                        refl,
                        record {
                          kept = Kept-refl agents;
                          exact = λ j. ground (arith, is_some-there agents k j);
                        },
                      ))
                  (λ absent.
                    add_agent-Returns agents count k (is_some-none _ absent)
                      (subst Starts (sym same) named.3)))
                λ r goes. subst (λ i. Goes agents (i ∷ []) r) same goes)
            (λ off. clash went off)

    find_rows-Returns :
        (rows : List Row) (id : Row → ℕ) (agents : List (ℕ × AgentClient J)) (count : ℕ)
        → All (λ r. Names r (id r)) rows
        → Returns e
            (Goes agents (map id rows))
            (fold_while rows (agents, count) (find_agent J cfg exists address_of torn q))
    unfolding fold_while
    find_rows-Returns [] id agents count named = pure-Returns _ (refl, none-ListsOf agents)
    find_rows-Returns (row ∷ rows) id agents count (n, named) =
        bind-Returns _ _ (find_agent-Returns agents count row (id row) n)
          λ ((b, m), on) (went, one).
            if_cases-Returns on _ _
              (λ _. implies-Returns (find_rows-Returns rows id b m named) λ r (went', rest).
                (went', more-ListsOf agents b r.0.0 (id row) (map id rows) one rest))
              (λ off. clash went off)

    find_agents-Returns :
        (rows : List Row) (id : Row → ℕ) (agents : List (ℕ × AgentClient J))
        → ((t : Trace) → e.store t q ≡ returned (some rows))
        → All (λ r. Names r (id r)) rows
        → Returns e
            (λ b. ListsOf agents b (map id rows))
            (find_agents J cfg exists address_of torn q agents)
    unfolding find_agents cases
    find_agents-Returns rows id agents answers named =
        bind-Returns
          {R = λ (r : Option (Option (List Row)) × Bool). (r.1 ≡ true) × (r.0 ≡ some (some rows))} _
          _
          (attempt_well-Returns {Q = λ r. r ≡ some (some rows)} q _ _ none _ (
            bind-Returns {R = λ r. r ≡ some rows} _ _ (store-Returns q (some rows) answers refl)
              λ res same. pure-Returns _ (ap some same)))
          λ (answer, on) (went, is). cases-some-Returns answer _ _ (some rows) is (
            bind-Returns _ _ (find_rows-Returns rows id agents 0 named)
              λ ((b, count), complete) (went, lists).
                bind-Returns _ _
                  (if-Returns (complete && ltb 0 count) _ _ (emit-Returns _) (pure-Returns tt tt))
                  λ _ _. pure-Returns b lists)

-- Over a pool that has a connection, a configuration with the number `central_id`, a server where no
-- statement is undefined, and that answers the query for the agents with rows whose first fields are
-- ids: if each new client's `init` comes to its end, `updateAgents` returns, and the manager then has
-- the agents that it had, as they were, and those of the rows, and no others.
pub update_agents-ListsOf :
    (J : Jsoncpp) (cfg : J.Value) (exists : String → Bool) (address_of : ℕ → ℕ)
    (torn : AgentClient J → AgentClient J) (m : AgentManager J) (rows : List Row) (id : Row → ℕ)
    (member : J.Value) (domains : ℤ) (e : Env)
    → Lends e
    → J.at cfg "central_id" ≡ returned member
    → J.as_int member ≡ returned domains
    → ((t : Trace) (q : Query) → Defined (e.exec t q))
    → ((t : Trace) → e.store t (agents_query domains) ≡ returned (some rows))
    → All (λ r. Names J cfg exists address_of torn e r (id r)) rows
    → Returns e
        (λ m'. ListsOf m.agents m'.agents (map id rows))
        (update_agents J cfg exists address_of torn m)
unfolding update_agents
update_agents-ListsOf J cfg exists address_of torn m rows id member domains e lends h k defined
      answers named =
    with_connection-Returns _ _ _ _ lends (
      bind-Returns {R = λ n. n ≡ domains} _ _
        (bind-Returns {R = λ v. v ≡ member} _ _ (lift-Returns _ member h refl)
          λ v same. lift-Returns _ domains (ap J.as_int same ∙ k) refl)
        λ n same.
          bind-Returns _ _
            (find_agents-Returns J cfg exists address_of torn e (agents_query n) rows id m.agents
              (λ t. ap (λ d. e.store t (agents_query d)) same ∙ answers t) named)
            λ agents lists. bind-Returns _ _ (ask-Returns _) λ ts _.
              bind-Returns _ _ (my_exec-Returns _ _ _ λ t. defined t _) λ _ _.
                bind-Returns _ _ (my_exec-Returns _ _ _ λ t. defined t _)
                  λ _ _. bind-Returns _ _ (release-Returns m.address) λ _ _. pure-Returns _ lists)
