-- ===== src/AgentManager/Started.antt =====
-- The threads that `startThreads` starts: one for each agent, and never a second one.
use watched_back.Base.{
  ℕ, ◌≡◌, refl, ◌∙◌, Bool, true, false, ◌||◌, Option, none, some, List, [], ◌∷◌, ◌++◌, ◌==◌, ==_iff,
  ==_refl, arith, if-holds, is_some,
}
use watched_back.Json.{Jsoncpp}
use watched_back.AgentClient.{AgentClient}
use watched_back.AgentClient.Thread.{start_thread as start_agent}
use watched_back.AgentManager.{agent_of, start_agents}
use watched_back.AgentManager.Kept.{Keyed}

abbrev pub occurs : ℕ → List ℕ → Bool
occurs x [] = false
occurs x (y ∷ ys) = y == x || occurs x ys

-- No number twice.
abbrev pub NoTwice : List ℕ → Type 0
NoTwice [] = Unit
NoTwice (x ∷ xs) = (occurs x xs ≡ false) × NoTwice xs

occurs-append : (x : ℕ) (xs ys : List ℕ) → occurs x (xs ++ ys) ≡ (occurs x xs || occurs x ys)
occurs-append x [] ys = refl
occurs-append x (y ∷ xs) ys = ground (arith, occurs-append x xs ys)

NoTwice-append :
    (xs ys : List ℕ)
    → NoTwice xs
    → NoTwice ys
    → ((x : ℕ) → occurs x xs ≡ true → occurs x ys ≡ false)
    → NoTwice (xs ++ ys)
NoTwice-append [] ys h k apart = k
NoTwice-append (x ∷ xs) ys (h, more) k apart = (
  occurs-append x xs ys ∙ ground (arith, apart x (first x xs)),
  NoTwice-append xs ys more k λ z o. apart z (later z x xs o),
)
  where
    first : (x : ℕ) (xs : List ℕ) → occurs x (x ∷ xs) ≡ true
    first x xs = ground (arith, ==_refl x)

    later : (z x : ℕ) (xs : List ℕ) → occurs z xs ≡ true → occurs z (x ∷ xs) ≡ true
    later z x xs h = ground arith

module _ (J : Jsoncpp) where
  -- Whether an agent's thread is there.
  abbrev pub is_active : Option (AgentClient J) → Bool
  is_active none = false
  is_active (some a) = a.active

  abbrev pub runs : List (ℕ × AgentClient J) → ℕ → Bool
  runs m id = is_active (agent_of m id)

  -- Who is started was in the map, without a thread.
  started-idle :
      (m : List (ℕ × AgentClient J)) (id : ℕ)
      → Keyed m
      → occurs id (start_agents J m).1 ≡ true
      → (is_some (agent_of m id) ≡ true) × (runs m id ≡ false)
  started-idle [] id keyed h = cc
  started-idle ((k, a) ∷ m) id keyed h =
      ground (arith, ==_iff k id, keyed.0, started-idle m id keyed.1)

  -- Who is started has a thread afterwards.
  started-runs :
      (m : List (ℕ × AgentClient J)) (id : ℕ)
      → Keyed m
      → occurs id (start_agents J m).1 ≡ true
      → runs (start_agents J m).0 id ≡ true
  started-runs [] id keyed h = cc
  started-runs ((k, a) ∷ m) id keyed h =
      ground (arith, ==_iff k id, keyed.0, started-idle m id keyed.1, started-runs m id keyed.1)

  -- Who had a thread has it still.
  start-runs :
      (m : List (ℕ × AgentClient J)) (id : ℕ)
      → runs m id ≡ true
      → runs (start_agents J m).0 id ≡ true
  start-runs [] id h = cc
  start-runs ((k, a) ∷ m) id h = ground (arith, ==_iff k id, start-runs m id)

  agent_of-start :
      (m : List (ℕ × AgentClient J)) (id : ℕ)
      → agent_of m id ≡ none
      → agent_of (start_agents J m).0 id ≡ none
  agent_of-start [] id h = refl
  agent_of-start ((k, a) ∷ m) id h = ground (arith, ==_iff k id, agent_of-start m id)

  start-Keyed : (m : List (ℕ × AgentClient J)) → Keyed m → Keyed (start_agents J m).0
  start-Keyed [] keyed = tt
  start-Keyed ((k, a) ∷ m) (fresh, keyed) = (agent_of-start m k fresh, start-Keyed m keyed)

  start-NoTwice : (m : List (ℕ × AgentClient J)) → Keyed m → NoTwice (start_agents J m).1
  start-NoTwice [] keyed = tt
  start-NoTwice ((k, a) ∷ m) (fresh, keyed) =
      if-holds NoTwice (start_agent J a).1 _ _
        (λ _. (ground (arith, started-idle m k keyed), start-NoTwice m keyed))
        (λ _. start-NoTwice m keyed)

  -- The threads started so far: none twice, and each of an agent of the map that is active.
  pub record OneEach (started : List ℕ) (agents : List (ℕ × AgentClient J)) : Type 0 where
    pub keyed : Keyed agents
    pub once : NoTwice started
    pub running : (id : ℕ) → occurs id started ≡ true → runs agents id ≡ true

  pub start-OneEach :
      (started : List ℕ) (agents : List (ℕ × AgentClient J))
      → OneEach started agents
      → OneEach ((start_agents J agents).1 ++ started) (start_agents J agents).0
  start-OneEach started agents h = record {
    keyed = start-Keyed agents h.keyed;
    once =
        NoTwice-append _ started (start-NoTwice agents h.keyed) h.once
          λ id o. ground (arith, started-idle agents id h.keyed, h.running id);
    running = λ id o. ground (
      arith,
      occurs-append id (start_agents J agents).1 started,
      started-runs agents id h.keyed,
      start-runs agents id,
      h.running id,
    );
  }
