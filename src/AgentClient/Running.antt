-- ===== src/AgentClient/Running.antt =====
-- The thread of an agent leaves `active` as it is.
use watched_back.Base.{ℕ, ◌≡◌, refl, ◌∙◌, String, Bool, true, ltb}
use watched_back.Double.{Double}
use watched_back.World.{Env}
use watched_back.Monad.{M}
use watched_back.Monad.Gives.{Gives, pure-Gives, bind-Gives, bind_with-Gives, if-Gives, cases-Gives}
use watched_back.Json.{Jsoncpp}
use watched_back.DbTools.{with_connection}
use watched_back.Ressource.Parse.{Manager}
use watched_back.AgentClient.{AgentClient}
use watched_back.AgentClient.Collect.{collect_all, collect}
use watched_back.AgentClient.Api.{rebuild, update_ready, init_agent, update_api}
use watched_back.AgentClient.Thread.{thread_round}

-- The state of the thread, as it was.
abbrev pub SameRun : {J : Jsoncpp} → AgentClient J → AgentClient J → Type 0
SameRun a b = b.active ≡ a.active

module _ (J : Jsoncpp) (alert : Manager) (cfg : J.Value) (exists : String → Bool) {e : Env} where
  connected-Gives :
      {A : Type 0} {Q : A → Type 0} (this : ℕ) (from : String) (o : A) (rest : M A)
      → Q o
      → Gives e Q rest
      → Gives e Q (with_connection this from o rest)
  unfolding with_connection
  connected-Gives this from o rest q g =
      bind-Gives _ _ λ got. if-Gives got _ _ (λ _. g) (λ _. bind-Gives _ _ λ _. pure-Gives o q)

  rebuild-Gives : (a : AgentClient J) → Gives e (SameRun a) (rebuild J cfg a)
  unfolding rebuild
  rebuild-Gives a = bind-Gives _ _ λ cs.
      bind-Gives _ _
        λ _. bind-Gives _ _ λ kept. bind-Gives _ _ λ _. bind-Gives _ _ λ _. pure-Gives _ refl

  update_ready-Gives : (a : AgentClient J) → Gives e (SameRun a) (update_ready J cfg a)
  unfolding update_ready
  update_ready-Gives a = bind-Gives _ _ λ _. bind-Gives _ _ λ (client, api, got).
      if-Gives got _ _ (λ _. rebuild-Gives (record a { client = client; api = api }))
        (λ _. pure-Gives _ refl)

  init_agent-Gives : (a : AgentClient J) → Gives e (SameRun a) (init_agent J cfg exists a)
  unfolding init_agent
  init_agent-Gives a =
      if-Gives a.ready _ _ (λ _. pure-Gives a refl)
        λ _. connected-Gives a.address _ a _ refl (
          bind-Gives _ _ λ found. cases-Gives found _ _ (pure-Gives a refl) λ s.
            bind-Gives _ _ λ client. update_ready-Gives (record a {
              baseurl = s.baseurl;
              pool_freq = s.pool_freq;
              client = client;
              ready = true;
            }))

  update_api-Gives : (a : AgentClient J) → Gives e (SameRun a) (update_api J cfg exists a)
  unfolding update_api
  update_api-Gives a = if-Gives a.ready _ _ (λ _. update_ready-Gives a) (λ _. init_agent-Gives a)

  collect_all-Gives :
      (a : AgentClient J) (ts : Double) (report : J.Value)
      → Gives e (SameRun a) (collect_all J alert a ts report)
  unfolding collect_all
  collect_all-Gives a ts report = bind-Gives _ _ λ _. bind-Gives _ _ λ rs. pure-Gives _ refl

  collect-Gives : (a : AgentClient J) → Gives e (SameRun a) (collect J alert cfg a)
  unfolding collect
  collect-Gives a = bind-Gives _ _ λ ts. bind-Gives _ _ λ (client, report, got).
      if-Gives got _ _
        (λ _. bind-Gives _ _ λ since.
          let told : AgentClient J = record a { client = client; since = since } in
          connected-Gives a.address _ told _ refl (collect_all-Gives told ts report))
        (λ _. pure-Gives _ refl)

  pub thread_round-Gives :
      (a : AgentClient J) → Gives e (SameRun a) (thread_round J alert cfg exists a)
  unfolding thread_round
  thread_round-Gives a =
      bind_with-Gives {R = SameRun a} _ _
        (if-Gives (ltb 5 a.collect_count) _ _
          (λ _.
            bind_with-Gives _ _ (update_api-Gives a)
              λ u h. pure-Gives (record u { collect_count = 0 }) h)
          (λ _. pure-Gives a refl))
        λ b h.
          bind_with-Gives _ _ (collect-Gives _) λ c h'. bind-Gives _ _ λ _. pure-Gives c (h' ∙ h)
