-- ===== src/AgentManager/Kept.antt =====
-- The agents that `updateAgents` finds in the map stay there as they are.
use watched_back.Base.{
  ℕ, ◌≡◌, refl, ◌∙◌, Bool, true, false, Option, none, some, List, [], ◌∷◌, ◌==◌, ==_iff, is_some,
  if-holds, arith, ltb, String,
}
use watched_back.World.{Query, Row, Env}
use watched_back.Monad.Gives.{
  Gives, pure-Gives, bind-Gives, bind_with-Gives, implies-Gives, if-Gives, cases-Gives,
  attempt-Gives, fold_while-Gives,
}
use watched_back.Json.{Jsoncpp}
use watched_back.DbTools.{with_connection}
use watched_back.AgentClient.{AgentClient}
use watched_back.AgentManager.{
  agent_of, put_agent, AgentManager, Found, add_agent, find_agent, find_agents, update_agents,
}

-- Each key once.
abbrev pub Keyed : {A : Type 0} → List (ℕ × A) → Type 0
Keyed [] = Unit
Keyed ((k, a) ∷ m) = (agent_of m k ≡ none) × Keyed m

module _ {A : Type 0} where
  pub agent_of-put_other :
      (m : List (ℕ × A)) (k j : ℕ) (a : A)
      → (k == j) ≡ false
      → agent_of (put_agent m k a) j ≡ agent_of m j
  agent_of-put_other [] k j a h = rw h
  agent_of-put_other ((i, b) ∷ m) k j a h =
      ground (arith, ==_iff i k, ==_iff i j, ==_iff k j, agent_of-put_other m k j a h)

  -- A key that is added.
  pub put_agent-Keyed :
      (m : List (ℕ × A)) (k : ℕ) (a : A) → agent_of m k ≡ none → Keyed m → Keyed (put_agent m k a)
  put_agent-Keyed [] k a h keyed = (refl, tt)
  put_agent-Keyed ((j, b) ∷ m) k a h keyed =
      if-holds Keyed (j == k) _ _ (λ same. absurd (not_there same))
        λ differs.
          if-holds Keyed (ltb k j) _ _ (λ before. (h, keyed))
            λ after. (
              agent_of-put_other m k j a (ground (arith, ==_iff j k, ==_iff k j)) ∙ keyed.0,
              put_agent-Keyed m k a (ground arith) keyed.1,
            )
    where
      not_there : ¬ ((j == k) ≡ true)
      not_there same = ground arith

-- `b` has every agent that `a` has, as it is there, and each id once.
pub record Kept {A : Type 0} (a b : List (ℕ × A)) : Type 0 where
  pub agents : (id : ℕ) (x : A) → agent_of a id ≡ some x → agent_of b id ≡ some x
  pub keyed : Keyed a → Keyed b

module _ {A : Type 0} where
  pub Kept-refl : (a : List (ℕ × A)) → Kept a a
  Kept-refl a = record { agents = λ id x h. h; keyed = λ k. k }

  pub Kept-trans : (a b c : List (ℕ × A)) → Kept a b → Kept b c → Kept a c
  Kept-trans a b c h k = record {
    agents = λ id x f. k.agents id x (h.agents id x f);
    keyed = λ f. k.keyed (h.keyed f);
  }

  pub put-Kept : (m : List (ℕ × A)) (k : ℕ) (a : A) → agent_of m k ≡ none → Kept m (put_agent m k a)
  put-Kept m k a h = record {
    agents = λ id x f. agent_of-put_other m k id a (ground (arith, ==_iff k id)) ∙ f;
    keyed = put_agent-Keyed m k a h;
  }

pub is_some-none : {A : Type 0} (o : Option A) → is_some o ≡ false → o ≡ none
is_some-none none h = refl
is_some-none (some a) h = cc

module _ (J : Jsoncpp) (cfg : J.Value) (exists : String → Bool) (address_of : ℕ → ℕ)
    (torn : AgentClient J → AgentClient J) {e : Env} where
  add_agent-Gives :
      (q : Query) (agents : List (ℕ × AgentClient J)) (count id : ℕ)
      → agent_of agents id ≡ none
      → Gives e
          (λ (r : Found J × Bool). Kept agents r.0.0)
          (add_agent J cfg exists address_of torn q (agents, count) id)
  unfolding add_agent
  add_agent-Gives q agents count id h =
      attempt-Gives {Q = λ (f : Found J). Kept agents f.0} q _ _ _ _ (put-Kept agents id _ h)
        (bind-Gives _ _ λ a. pure-Gives _ (put-Kept agents id a h))

  find_agent-Gives :
      (q : Query) (found : Found J) (row : Row)
      → Gives e
          (λ (r : Found J × Bool). Kept found.0 r.0.0)
          (find_agent J cfg exists address_of torn q found row)
  unfolding find_agent
  find_agent-Gives q (agents, count) row = bind-Gives _ _ λ (id, on).
      if-Gives on _ _
        (λ _.
          if-Gives (is_some (agent_of agents id)) _ _ (λ _. pure-Gives _ (Kept-refl agents))
            (λ absent. add_agent-Gives q agents count id (is_some-none _ absent)))
        (λ _. pure-Gives _ (Kept-refl agents))

  find_agents-Gives :
      (q : Query) (agents : List (ℕ × AgentClient J))
      → Gives e (Kept agents) (find_agents J cfg exists address_of torn q agents)
  unfolding find_agents
  find_agents-Gives q agents = bind-Gives _ _ λ (answer, on).
      cases-Gives answer _ _ (pure-Gives _ (Kept-refl agents)) λ res.
        cases-Gives res _ _ (bind-Gives _ _ λ _. pure-Gives _ (Kept-refl agents)) λ rows.
          bind_with-Gives {R = λ (r : Found J × Bool). Kept agents r.0.0} _ _
            (fold_while-Gives {Q = λ (f : Found J). Kept agents f.0} rows _ _ (Kept-refl agents)
              λ (b, n) row k.
                implies-Gives (find_agent-Gives q (b, n) row)
                  λ r k'. Kept-trans agents b r.0.0 k k')
            λ ((found, count), complete) k. bind-Gives _ _ λ _. pure-Gives _ k

-- Whatever the database and the new agents do, when `updateAgents` returns: the agents that the manager had before
-- are in its map, unchanged; no id is twice in the map if none was; the
-- aggregator is the one that it was.
pub update_agents-Kept :
    (J : Jsoncpp) (cfg : J.Value) (exists : String → Bool) (address_of : ℕ → ℕ)
    (torn : AgentClient J → AgentClient J) (m : AgentManager J) (e : Env)
    → Gives e
        (λ m'. Kept m.agents m'.agents × (m'.aggreg ≡ m.aggreg))
        (update_agents J cfg exists address_of torn m)
unfolding update_agents with_connection
update_agents-Kept J cfg exists address_of torn m e = bind-Gives _ _ λ got.
    if-Gives got _ _
      (λ _. bind-Gives _ _ λ domains.
        bind_with-Gives _ _ (find_agents-Gives J cfg exists address_of torn _ m.agents) λ agents k.
          bind-Gives _ _ λ ts.
            bind-Gives _ _ λ _. bind-Gives _ _ λ _. bind-Gives _ _ λ _. pure-Gives _ (k, refl))
      (λ _. bind-Gives _ _ λ _. pure-Gives m (Kept-refl m.agents, refl))
