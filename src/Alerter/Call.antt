-- ===== src/Alerter/Call.antt =====
-- The alerts that the rest of the backend asks of one `alerterManager`, as calls.
use watched_back.Base.{ℕ, String, List}
use watched_back.Double.{Double}
use watched_back.World.{World}
use watched_back.Monad.{M, fold_m}
use watched_back.Monad.Keeps.{Keeps, fold_m-Keeps}
use watched_back.Alerter.{
  ResEvent, send_service, send_log, send_serv_ressource, send_host_ressource,
}
use watched_back.Alerter.Keeps.{
  AllowsAlerts, send_service-Keeps, send_log-Keeps, send_serv_ressource-Keeps,
  send_host_ressource-Keeps,
}

pub data AlertCall : Type 0 where
  sends_service : ℕ → ℕ → String → AlertCall
  sends_log : ℕ → ℕ → ℕ → String → AlertCall
  sends_serv_ressource sends_host_ressource : ℕ → ℕ → ResEvent → Double → AlertCall

unfoldable pub alert_call : ℕ → List String → AlertCall → M (Unit {0})
alert_call this known (sends_service host serv msg) = send_service this known host serv msg
alert_call this known (sends_log host serv level lines) = send_log this known host serv level lines
alert_call this known (sends_serv_ressource serv res event current) =
    send_serv_ressource this known serv res event current
alert_call this known (sends_host_ressource host res event current) =
    send_host_ressource this known host res event current

unfoldable pub alert_calls : ℕ → List String → List AlertCall → M (Unit {0})
alert_calls this known cs = fold_m cs tt λ _ c. alert_call this known c

module _ {P : World → Type 0} where
  pub alert_call-Keeps :
      (this : ℕ) (known : List String) (c : AlertCall)
      → AllowsAlerts known P
      → Keeps P (alert_call this known c)
  unfolding alert_call
  alert_call-Keeps this known (sends_service host serv msg) k =
      send_service-Keeps this known host serv msg k
  alert_call-Keeps this known (sends_log host serv level lines) k =
      send_log-Keeps this known host serv level lines k
  alert_call-Keeps this known (sends_serv_ressource serv res event current) k =
      send_serv_ressource-Keeps this known serv res event current k
  alert_call-Keeps this known (sends_host_ressource host res event current) k =
      send_host_ressource-Keeps this known host res event current k

  pub alert_calls-Keeps :
      (this : ℕ) (known : List String) (cs : List AlertCall)
      → AllowsAlerts known P
      → Keeps P (alert_calls this known cs)
  unfolding alert_calls
  alert_calls-Keeps this known cs k = fold_m-Keeps cs tt _ λ _ c. alert_call-Keeps this known c k
