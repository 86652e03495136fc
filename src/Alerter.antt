-- ===== src/Alerter.antt =====
-- src/alerter.cpp: `alerterManager` finds who is to be told of an event, and passes the alert on to
-- the alerters that it knows, by their names. `this` is the manager's address.
pub mod Keeps
pub mod Call
pub mod Known
pub mod Pinned
pub mod Delivery
pub mod Plugins
pub mod Loading
pub mod Lua
mod Tests
use Prim.Native.Char.{Char}
use watched_back.Base.{
  ℕ, String, ◌<>◌, Bool, true, false, ◌||◌, Option, none, some, List, [], ◌∷◌, str_eq,
  if◌then◌else◌, to_string,
}
use watched_back.Double.{Double, double_to_string}
use watched_back.World.{Query, query, uint, text, Row, alerted}
use watched_back.Monad.{
  M, pure, emit, store, ◌>>=◌, ◌>>◌, cases, fold_m, column, my_catch, my_exec, notice, warning,
}
use watched_back.DbTools.{with_connection}
use watched_back.DbTools.Get.{get_service_host}
use watched_back.DbTools.Name.{get_service_name, get_host_name, get_ressource_name}

-- `struct res_event` of include/backend.h.
pub record ResEvent : Type 0 where
  pub event_type : ℕ
  pub property : String
  pub oper : Char
  pub value : Double

-- `enum levels`, as the numbers that it is cast from.
abbrev pub critical : ℕ
critical = 5

-- `alerters.find(name) != alerters.end()`
abbrev pub knows : List String → String → Bool
knows [] name = false
knows (a ∷ as') name = str_eq a name || knows as' name

-- `alerterManager::send`
unfoldable pub send : List String → ℕ → String → String → String → String → M (Unit {0})
send alerters level alerter dest title message =
    if knows alerters alerter
    then emit (alerted alerter level dest title message)
    else warning "alerterManager::send"
        ("Alerter " <> (alerter <> (" NOT found to handle alert: " <> title)))

-- One row of the alerting setup: an alerter and whom it tells.
unfoldable pub send_row : List String → ℕ → String → String → Row → M (Unit {0})
send_row alerters level title message row = do
  alerter ← column row 0
  dest ← column row 1
  send alerters level alerter dest title message

-- The setup's rows, told one after the other. Without any, `nobody` names who has none.
unfoldable pub send_rows :
    List String → String → M String → ℕ → String → String → List Row → M (Unit {0})
send_rows alerters from nobody level title message [] = do
  who ← nobody
  notice from ("No alerting setup for " <> who)
send_rows alerters from nobody level title message (r ∷ rs) =
    fold_m (r ∷ rs) tt λ _ row. send_row alerters level title message row

-- What the four methods share: the setup's query, under `myqCatch`.
unfoldable pub tell :
    ℕ → List String → String → Query → String → M String → ℕ → String → String → M (Unit {0})
tell this alerters from q failed nobody level title message = with_connection this from tt (do
  told ← my_catch q from failed (do
    res ← store q
    cases res (pure none)
        (λ rows. do send_rows alerters from nobody level title message rows; pure (some tt)))
  pure tt)

abbrev pub services_query : ℕ → Query
services_query serv_id =
    query
      "select p.name, a.value from p$alert_services a, c$properties p where a.prop_id=p.id and serv_id=%0:id"
      (("id", uint serv_id) ∷ [])

abbrev pub hosts_query : ℕ → Query
hosts_query host_id =
    query
      "select p.name, a.value from p$alert_hosts a, c$properties p where a.prop_id=p.id and host_id=%0:id"
      (("id", uint host_id) ∷ [])

abbrev pub of_service : ℕ → ℕ → ℕ → M String
of_service this host_id serv_id = do
  name ← get_service_name this host_id serv_id
  pure ("service " <> name)

-- `alerterManager::sendService`
unfoldable pub send_service : ℕ → List String → ℕ → ℕ → String → M (Unit {0})
send_service this alerters host_id serv_id msg =
    tell this alerters "alerterManager::sendService" (services_query serv_id)
      ("Failed to get alerters for service " <> to_string serv_id) (of_service this host_id serv_id)
      critical msg msg

-- `alerterManager::sendLog`
unfoldable pub send_log : ℕ → List String → ℕ → ℕ → ℕ → String → M (Unit {0})
send_log this alerters host_id serv_id level lines = do
  service ← get_service_name this host_id serv_id
  host ← get_host_name this host_id
  tell this alerters "alerterManager::sendLog" (services_query serv_id)
      ("Failed to get alerters for service " <> to_string serv_id) (of_service this host_id serv_id)
      level ("Service " <> (service <> (" on " <> (host <> " new log elements")))) lines

-- The rule that an event broke, with the value that broke it.
abbrev pub rule : ResEvent → Double → String
rule event current =
    double_to_string current <> (String.◌∷◌ event.oper String.[] <> double_to_string event.value)

-- `alerterManager::sendServRessource`
unfoldable pub send_serv_ressource : ℕ → List String → ℕ → ℕ → ResEvent → Double → M (Unit {0})
send_serv_ressource this alerters serv_id res_id event current = do
  host_id ← get_service_host this serv_id
  service ← get_service_name this host_id serv_id
  host ← get_host_name this host_id
  ressource ← get_ressource_name this res_id
  service' ← get_service_name this host_id serv_id
  host' ← get_host_name this host_id
  ressource' ← get_ressource_name this res_id
  tell this alerters "alerterManager::sendServRessource" (services_query serv_id)
      ("Failed to get alerters for service " <> to_string serv_id) (of_service this host_id serv_id)
      event.event_type
      ("Service "
        <> (service <> (" on " <> (host <> (" resource " <> (ressource <> " new event"))))))
      ("Service:\t "
        <> (service'
            <> ("\nHost:\t\t "
                <> (host'
                    <> ("\nRessource:\t "
                        <> (ressource'
                            <> ("\nProperty:\t "
                                <> (event.property <> ("\nRule:\t\t " <> rule event current)))))))))

-- `alerterManager::sendHostRessource`
unfoldable pub send_host_ressource : ℕ → List String → ℕ → ℕ → ResEvent → Double → M (Unit {0})
send_host_ressource this alerters host_id res_id event current = do
  host ← get_host_name this host_id
  ressource ← get_ressource_name this res_id
  host' ← get_host_name this host_id
  ressource' ← get_ressource_name this res_id
  tell this alerters "alerterManager::sendHostRessource" (hosts_query host_id)
      ("Failed to get alerters for host " <> to_string host_id)
      (do name ← get_host_name this host_id; pure ("host " <> name)) event.event_type
      ("Host " <> (host <> (" resource " <> (ressource <> " new event"))))
      ("Host:\t\t "
        <> (host'
            <> ("\nRessource:\t "
                <> (ressource'
                    <> ("\nProperty:\t "
                        <> (event.property <> ("\nRule:\t\t " <> rule event current)))))))

abbrev pub alerter_query : String → Query
alerter_query name =
    query "insert into c$properties(name) values(%0q:name) on duplicate key update name=%0q:name"
      (("name", text name) ∷ [])

-- `alerterManager::addAlerter`
unfoldable pub add_alerter : ℕ → String → M (Unit {0})
add_alerter this name =
    with_connection this "alerterManager::addAlerter" tt
      (my_exec (alerter_query name) "alerterManager::addAlerter" "Failed to insert alerter")
