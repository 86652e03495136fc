-- ===== src/AgentClient/Keeps.antt =====
-- What an invariant of the world needs so that the collection of an agent's report keeps it.
use watched_back.Base.{ℕ, String, List, [], ◌≡◌, true, ◌∷◌}
use watched_back.Double.{Double}
use watched_back.World.{Query, World}
use watched_back.Monad.{my_exec}
use watched_back.Monad.Keeps.{
  Keeps, keeps_rules, bind-Keeps, pure-Keeps, lift-Keeps, fold_m-Keeps, my_exec-Keeps,
}
use watched_back.Binding.{is_bound}
use watched_back.Json.{Jsoncpp}
use watched_back.Json.Read.{walk}
use watched_back.DbTools.Bound.{
  AllowsBound, have_log_event-Keeps, have_process_status-Keeps, have_socket_status-Keeps,
  get_host-Keeps, get_service-Keeps, get_service_type-Keeps, get_event_type-Keeps,
}
use watched_back.Alerter.Keeps.{AllowsAlerts, send_service-Keeps, send_log-Keeps}
use watched_back.Ressource.Parse.{Manager}
use watched_back.AgentClient.Service.{
  Status, collect_log, collect_process, count_socket, collect_socket, collect_status,
  collect_service,
}

module _ {P : World → Type 0} (J : Jsoncpp) where
  pub walk-Keeps : (v : J.Value) (ks : List String) → Keeps P (walk J v ks)
  unfolding walk
  walk-Keeps v [] = pure-Keeps v
  walk-Keeps v (k ∷ ks) = bind-Keeps _ _ (lift-Keeps _) λ m. walk-Keeps m ks

  -- A statement whose placeholders are bound.
  bound_statement-Keeps :
      (q : Query) (from msg : String)
      → AllowsBound P
      → is_bound q ≡ true
      → Keeps P (my_exec q from msg)
  bound_statement-Keeps q from msg b h = my_exec-Keeps q from msg b.tolerates.log (b.execs q h)

  collect_log-Keeps :
      (this serv_id : ℕ) (s : ℕ × String) (j : J.Value)
      → AllowsBound P
      → Keeps P (collect_log J this serv_id s j)
  unfolding collect_log is_bound
  collect_log-Keeps this serv_id (maxlvl, t) j b =
      search (keeps_rules, have_log_event-Keeps, get_event_type-Keeps, bound_statement-Keeps) depth
        28

  collect_process-Keeps :
      (this serv_id : ℕ) (ts : Double) (s : Status) (j : J.Value)
      → AllowsBound P
      → Keeps P (collect_process J this serv_id ts s j)
  unfolding collect_process is_bound
  collect_process-Keeps this serv_id ts s j b =
      search (keeps_rules, have_process_status-Keeps, bound_statement-Keeps) depth 16

  count_socket-Keeps :
      (this serv_id : ℕ) (s : Status) (j : J.Value)
      → AllowsBound P
      → Keeps P (count_socket J this serv_id s j)
  unfolding count_socket
  count_socket-Keeps this serv_id s j b = search (keeps_rules, have_socket_status-Keeps) depth 9

  collect_socket-Keeps :
      (this serv_id : ℕ) (ts : Double) (s : Status) (j : J.Value)
      → AllowsBound P
      → Keeps P (collect_socket J this serv_id ts s j)
  unfolding collect_socket is_bound
  collect_socket-Keeps this serv_id ts s j b =
      search (keeps_rules, count_socket-Keeps, bound_statement-Keeps) depth 9

  collect_status-Keeps :
      (this serv_id : ℕ) (ts : Double) (i : J.Value)
      → AllowsBound P
      → Keeps P (collect_status J this serv_id ts i)
  unfolding collect_status
  collect_status-Keeps this serv_id ts i b = bind-Keeps _ _ (walk-Keeps i _) λ processes.
      bind-Keeps _ _ (fold_m-Keeps _ _ _ λ s j. collect_process-Keeps this serv_id ts s j b) λ s.
        bind-Keeps _ _ (walk-Keeps i _)
          λ sockets. fold_m-Keeps _ _ _ λ s j. collect_socket-Keeps this serv_id ts s j b

module _ {P : World → Type 0} (J : Jsoncpp) (this : ℕ) (alert : Manager) where
  pub collect_service-Keeps :
      (ts : Double) (services : J.Value) (key : String)
      → AllowsAlerts alert.known P
      → Keeps P (collect_service J this alert ts services key)
  unfolding collect_service is_bound
  collect_service-Keeps ts services key k =
      search
        (
          keeps_rules, k.bound, walk-Keeps, get_host-Keeps, get_service-Keeps,
          get_service_type-Keeps, collect_log-Keeps, send_log-Keeps, collect_status-Keeps,
          send_service-Keeps, bound_statement-Keeps,
        )
        depth 40
