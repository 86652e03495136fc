-- ===== src/Alerter/Keeps.antt =====
-- Invariants that admit alerts, kept by `alerterManager`.
use watched_back.Base.{ℕ, String, ◌≡◌, refl, List, [], ◌∷◌, true, Bool-cases, inl, inr}
use watched_back.Double.{Double}
use watched_back.World.{Query, World, alerted, Row}
use watched_back.Monad.{M}
use watched_back.Monad.Keeps.{
  Keeps, Allows, my_exec-Keeps, bind-Keeps, pure-Keeps, emit-Keeps, log-Keeps,
}
use watched_back.Binding.{is_bound}
use watched_back.DbTools.Keeps.{db_rules, with_connection-Keeps}
use watched_back.DbTools.Bound.{
  AllowsBound, get_service_name-Keeps, get_host_name-Keeps, get_ressource_name-Keeps,
  get_service_host-Keeps,
}
use watched_back.Alerter.{
  ResEvent, knows, send, send_row, send_rows, tell, send_service, send_log, send_serv_ressource,
  send_host_ressource, add_alerter, of_service,
}

-- An invariant that admits bound queries and every alert through a known alerter.
pub record AllowsAlerts (known : List String) (P : World → Type 0) : Type 0 where
  pub bound : AllowsBound P
  pub alerts :
      (a : String) (l : ℕ) (d s m : String) → knows known a ≡ true → Allows P (alerted a l d s m)

module _ {P : World → Type 0} where
  send-Keeps :
      (known : List String) (level : ℕ) (a d s m : String)
      → AllowsAlerts known P
      → Keeps P (send known level a d s m)
  unfolding send
  send-Keeps known level a d s m k = elim (Bool-cases (knows known a)) [
    | inl h ↦ rw h (emit-Keeps _ (k.alerts a level d s m h))
    | inr h ↦ rw h (log-Keeps 2 _ _ k.bound.tolerates.log)
  ]

  send_row-Keeps :
      (known : List String) (level : ℕ) (s m : String) (r : Row)
      → AllowsAlerts known P
      → Keeps P (send_row known level s m r)
  unfolding send_row
  send_row-Keeps known level s m r k = search (db_rules, send-Keeps)

  send_rows-Keeps :
      (known : List String) (from : String) (nobody : M String) (level : ℕ) (s m : String)
      (rows : List Row)
      → AllowsAlerts known P
      → Keeps P nobody
      → Keeps P (send_rows known from nobody level s m rows)
  unfolding send_rows
  send_rows-Keeps known from nobody level s m [] k n = search (db_rules, k.bound.tolerates.log)
  send_rows-Keeps known from nobody level s m (r ∷ rs) k n = search (db_rules, send_row-Keeps)

  tell-Keeps :
      (this : ℕ) (known : List String) (from : String) (q : Query) (failed : String)
      (nobody : M String) (level : ℕ) (s m : String)
      → AllowsAlerts known P
      → is_bound q ≡ true
      → Keeps P nobody
      → Keeps P (tell this known from q failed nobody level s m)
  unfolding tell
  tell-Keeps this known from q failed nobody level s m k b n =
      search
        (db_rules, send_rows-Keeps, k.bound.tolerates, k.bound.stores q b, k.bound.tolerates.log)
        depth 9

  of_service-Keeps :
      (this host_id serv_id : ℕ) → AllowsBound P → Keeps P (of_service this host_id serv_id)
  of_service-Keeps this host_id serv_id b =
      bind-Keeps _ _ (get_service_name-Keeps this host_id serv_id b) λ name. pure-Keeps _

  pub send_service-Keeps :
      (this : ℕ) (known : List String) (host_id serv_id : ℕ) (msg : String)
      → AllowsAlerts known P
      → Keeps P (send_service this known host_id serv_id msg)
  unfolding send_service is_bound
  send_service-Keeps this known host_id serv_id msg k =
      tell-Keeps this known _ _ _ _ _ _ _ k refl (of_service-Keeps this host_id serv_id k.bound)

  pub send_log-Keeps :
      (this : ℕ) (known : List String) (host_id serv_id level : ℕ) (lines : String)
      → AllowsAlerts known P
      → Keeps P (send_log this known host_id serv_id level lines)
  unfolding send_log is_bound
  send_log-Keeps this known host_id serv_id level lines k =
      bind-Keeps _ _ (get_service_name-Keeps this host_id serv_id k.bound) λ service.
        bind-Keeps _ _ (get_host_name-Keeps this host_id k.bound) λ host.
          tell-Keeps this known _ _ _ _ _ _ _ k refl (of_service-Keeps this host_id serv_id k.bound)

  pub send_serv_ressource-Keeps :
      (this : ℕ) (known : List String) (serv_id res_id : ℕ) (event : ResEvent) (current : Double)
      → AllowsAlerts known P
      → Keeps P (send_serv_ressource this known serv_id res_id event current)
  unfolding send_serv_ressource is_bound
  send_serv_ressource-Keeps this known serv_id res_id event current k =
      bind-Keeps _ _ (get_service_host-Keeps this serv_id k.bound) λ host_id.
        let service = get_service_name-Keeps this host_id serv_id k.bound in
        let host = get_host_name-Keeps this host_id k.bound in
        let ressource = get_ressource_name-Keeps this res_id k.bound in
        bind-Keeps _ _ service λ s. bind-Keeps _ _ host λ h. bind-Keeps _ _ ressource λ r.
          bind-Keeps _ _ service λ s'. bind-Keeps _ _ host λ h'. bind-Keeps _ _ ressource λ r'.
            tell-Keeps this known _ _ _ _ _ _ _ k refl
              (of_service-Keeps this host_id serv_id k.bound)

  pub send_host_ressource-Keeps :
      (this : ℕ) (known : List String) (host_id res_id : ℕ) (event : ResEvent) (current : Double)
      → AllowsAlerts known P
      → Keeps P (send_host_ressource this known host_id res_id event current)
  unfolding send_host_ressource is_bound
  send_host_ressource-Keeps this known host_id res_id event current k =
      let host = get_host_name-Keeps this host_id k.bound in
      let ressource = get_ressource_name-Keeps this res_id k.bound in
      bind-Keeps _ _ host λ h. bind-Keeps _ _ ressource λ r. bind-Keeps _ _ host λ h'.
        bind-Keeps _ _ ressource
          λ r'. tell-Keeps this known _ _ _ _ _ _ _ k refl (bind-Keeps _ _ host λ n. pure-Keeps _)

  pub add_alerter-Keeps :
      (this : ℕ) (name : String) → AllowsBound P → Keeps P (add_alerter this name)
  unfolding add_alerter is_bound
  add_alerter-Keeps this name b =
      with_connection-Keeps this _ _ _ b.tolerates
        (my_exec-Keeps _ _ _ b.tolerates.log (b.execs _ refl))
