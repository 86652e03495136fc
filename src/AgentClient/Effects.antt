-- ===== src/AgentClient/Effects.antt =====
-- What the collection of a report may do: its queries, its alerts and its connections.
use watched_back.Base.{ℕ, String, ◌≡◌, refl, ap, ◌∙◌, ==_refl, none, List, arith}
use watched_back.Double.{Double}
use watched_back.Binding.{is_bound}
use watched_back.World.{World, Env, returned}
use watched_back.Monad.{run}
use watched_back.Monad.Runs.{bind-returned, bind_run}
use watched_back.Monad.Keeps.{
  Keeps, keeps_rules, bind-Keeps, pure-Keeps, lift-Keeps, if-Keeps, fold_m-Keeps, my_exec-Keeps,
  ask-Keeps,
}
use watched_back.Json.{Jsoncpp}
use watched_back.DbTools.{release, set_conn}
use watched_back.DbTools.Keeps.{with_connection-Keeps}
use watched_back.DbTools.Balance.{Balanced, grabs, releases, Balanced-AllowsBound, release-Balanced}
use watched_back.Alerter.Keeps.{AllowsAlerts}
use watched_back.Alerter.Known.{Proper, Proper-AllowsAlerts}
use watched_back.Ressource.{Ressource, State}
use watched_back.Ressource.Parse.{Manager}
use watched_back.Ressource.Keeps.{AllowsSamples, parse-Keeps, Heard, Heard-AllowsSamples}
use watched_back.HttpClient.Keeps.{AllowsRequests, get_json-Keeps}
use watched_back.AgentClient.{AgentClient}
use watched_back.AgentClient.Collect.{
  collect_round, samples_path, missing_history, collect_services, collect_ressource, collect_all,
  collect,
}
use watched_back.AgentClient.Keeps.{walk-Keeps, collect_service-Keeps}

module _ {P : World → Type 0} (J : Jsoncpp) (alert : Manager) where
  collect_services-Keeps :
      (this : ℕ) (ts : Double) (report : J.Value)
      → AllowsAlerts alert.known P
      → Keeps P (collect_services J alert this ts report)
  unfolding collect_services is_bound
  collect_services-Keeps this ts report k = bind-Keeps _ _ (lift-Keeps _) λ services.
      bind-Keeps _ _
        (fold_m-Keeps _ _ _ λ hosts key.
          bind-Keeps _ _ (collect_service-Keeps J this alert ts services key k) λ id. pure-Keeps _)
        λ hosts. fold_m-Keeps hosts _ _ λ u host.
          my_exec-Keeps (missing_history ts host) _ _ k.bound.tolerates.log (k.bound.execs _ refl)

  samples_path-Keeps : (r : Ressource) → Keeps P (samples_path r)
  unfolding samples_path
  samples_path-Keeps r = search keeps_rules

  collect_ressource-Keeps :
      (report : J.Value) (done : List (Ressource × State)) (c : Ressource × State)
      → AllowsSamples alert.known P
      → Keeps P (collect_ressource J alert report done c)
  unfolding collect_ressource
  collect_ressource-Keeps report done (r, s) k = bind-Keeps _ _ (samples_path-Keeps r) λ path.
      bind-Keeps _ _ (walk-Keeps J report path)
        λ samples. bind-Keeps _ _ (parse-Keeps J r alert samples s k) λ s'. pure-Keeps _

  collect_all-Keeps :
      (a : AgentClient J) (ts : Double) (report : J.Value)
      → AllowsSamples alert.known P
      → Keeps P (collect_all J alert a ts report)
  unfolding collect_all
  collect_all-Keeps a ts report k =
      bind-Keeps _ _ (collect_services-Keeps a.address ts report k.alerts) λ _.
        bind-Keeps _ _
          (fold_m-Keeps a.ressources _ _ λ done c. collect_ressource-Keeps report done c k)
          λ rs. pure-Keeps _

  collect-Keeps :
      (cfg : J.Value) (a : AgentClient J)
      → AllowsSamples alert.known P
      → AllowsRequests P
      → Keeps P (collect J alert cfg a)
  unfolding collect
  collect-Keeps cfg a k http = bind-Keeps _ _ (ask-Keeps _) λ ts.
      bind-Keeps _ _ (get_json-Keeps J cfg a.client _ _ http) λ (client, report, got).
        if-Keeps got _ _
          (search (keeps_rules, with_connection-Keeps, k.alerts.bound.tolerates, collect_all-Keeps)
            depth 9)
          (pure-Keeps _)

-- Whatever services an agent reports, and however the collection ends: each query that it sends
-- for them has a value for each placeholder, and each alert goes to an alerter that the manager
-- knows, if that was so of the trace before.
pub collect_services-Proper :
    (J : Jsoncpp) (alert : Manager) (this : ℕ) (ts : Double) (report : J.Value) (e : Env)
    (w : World)
    → Proper alert.known w
    → Proper alert.known (run (collect_services J alert this ts report) e w).1
unfolding run
collect_services-Proper J alert this ts report e w p =
    (collect_services-Keeps J alert this ts report (Proper-AllowsAlerts alert.known)).at e w p

Heard-AllowsRequests : (known : List String) → AllowsRequests (Heard known)
Heard-AllowsRequests known = record {
  log = (Heard-AllowsSamples known).alerts.bound.tolerates.log;
  requests = λ m p. record { at = λ w b. record { all = (tt, b.all) } };
}

-- Whatever an agent answers to `collect`, and however that ends: each alert, of a service or of a
-- metric, goes to an alerter that the manager knows, if that was so of the trace before.
pub collect-Heard :
    (J : Jsoncpp) (alert : Manager) (cfg : J.Value) (a : AgentClient J) (e : Env) (w : World)
    → Heard alert.known w
    → Heard alert.known (run (collect J alert cfg a) e w).1
unfolding run
collect-Heard J alert cfg a e w h =
    (collect-Keeps J alert cfg a (Heard-AllowsSamples alert.known)
        (Heard-AllowsRequests alert.known)).at
      e w h

Balanced-AllowsSamples : (p : ℕ) (known : List String) → AllowsSamples known (Balanced p)
Balanced-AllowsSamples p known = record {
  alerts = record {
    bound = Balanced-AllowsBound p;
    alerts = λ a l d s m h. record { at = λ w b. record { balance = b.balance } };
  };
  execs = λ q. record { at = λ w b. record { balance = b.balance } };
}

Balanced-AllowsRequests : (p : ℕ) → AllowsRequests (Balanced p)
Balanced-AllowsRequests p = record {
  log = (Balanced-AllowsBound p).tolerates.log;
  requests = λ m q. record { at = λ w b. record { balance = b.balance } };
}

held_none :
    (p : ℕ) (w : World) → w.conn p ≡ none → Balanced p w → grabs p w.trace ≡ releases p w.trace
held_none p w n b = ground (arith, b.balance)

release-conn : (this : ℕ) (e : Env) (w : World) → (run (release this) e w).1.conn this ≡ none
unfolding run release set_conn
release-conn this e w = ground (arith, ==_refl this)

collect_round-Keeps :
    (J : Jsoncpp) (alert : Manager) (cfg : J.Value) (a : AgentClient J) (p : ℕ)
    → Keeps (Balanced p) (collect_round J alert cfg a)
unfolding collect_round
collect_round-Keeps J alert cfg a p =
    bind-Keeps _ _
      (collect-Keeps J alert cfg a (Balanced-AllowsSamples p alert.known)
        (Balanced-AllowsRequests p))
      λ a'. release-Balanced p a.address

collect_round-balance :
    (J : Jsoncpp) (alert : Manager) (cfg : J.Value) (a : AgentClient J) (e : Env) (w : World)
    → Balanced a.address w
    → Balanced a.address (run (collect_round J alert cfg a) e w).1
unfolding run
collect_round-balance J alert cfg a e w b = (collect_round-Keeps J alert cfg a a.address).at e w b

collect_round-conn :
    (J : Jsoncpp) (alert : Manager) (cfg : J.Value) (a : AgentClient J) (e : Env) (w : World)
    → (run (collect_round J alert cfg a) e w).0 ≡ returned tt
    → (run (collect_round J alert cfg a) e w).1.conn a.address ≡ none
unfolding collect_round
collect_round-conn J alert cfg a e w h =
    let (a', v, r, rest) = bind-returned (collect J alert cfg a) _ e w tt h in
    ap (λ o. o.1.conn a.address) (bind_run (collect J alert cfg a) _ e w v a' r)
    ∙ release-conn a.address e v

-- One round of an agent's thread, whatever the agent and the server answer: if the round comes to
-- its end, the agent's object holds no connection, and it has given back to the pool as many as it
-- ever took, if its connections were in balance before.
pub collect_round-returns :
    (J : Jsoncpp) (alert : Manager) (cfg : J.Value) (a : AgentClient J) (e : Env) (w : World)
    → Balanced a.address w
    → (run (collect_round J alert cfg a) e w).0 ≡ returned tt
    → let v = (run (collect_round J alert cfg a) e w).1 in
      (v.conn a.address ≡ none) × (grabs a.address v.trace ≡ releases a.address v.trace)
collect_round-returns J alert cfg a e w b h =
    let n = collect_round-conn J alert cfg a e w h in
    (n, held_none a.address _ n (collect_round-balance J alert cfg a e w b))
