-- ===== src/DbTools/Call.antt =====
-- The methods of `dbTools` as calls, so that a run of many objects is a list of them.
use watched_back.Base.{ℕ, String, List}
use watched_back.Monad.{M, pure, ◌>>=◌, fold_m}
use watched_back.DbTools.{grab, release}
use watched_back.DbTools.Have.{
  have_process_status, have_socket_status, have_log_event, have_table, have_ressource,
  table_has_column, have_backend, have_host, have_service, have_event_type, have_service_type,
}
use watched_back.DbTools.Get.{
  get_ressource_id, get_backend, get_host, get_service, get_service_host, get_event_type,
  get_service_type,
}
use watched_back.DbTools.Name.{get_ressource_name, get_service_name, get_host_name}

pub data Call : Type 0 where
  grabs releases : Call
  has_process_status has_socket_status : ℕ → String → String → Call
  has_log_event : ℕ → String → ℕ → String → Call
  has_table has_host has_event_type has_service_type : String → Call
  has_ressource has_column has_backend : String → String → Call
  has_service : ℕ → String → Call
  gets_ressource_id gets_backend : String → String → Call
  gets_host gets_event_type gets_service_type : String → Call
  gets_service : ℕ → String → Call
  gets_service_host gets_ressource_name gets_host_name : ℕ → Call
  gets_service_name : ℕ → ℕ → Call

-- The call's result is dropped.
abbrev done : {A : Type 0} → M A → M (Unit {0})
done m = m >>= λ _. pure tt

unfoldable pub call : ℕ → Call → M (Unit {0})
call this grabs = done (grab this)
call this releases = release this
call this (has_process_status serv name status) = done (have_process_status this serv name status)
call this (has_socket_status serv name status) = done (have_socket_status this serv name status)
call this (has_log_event serv source line date) = done (have_log_event this serv source line date)
call this (has_table name) = done (have_table this name)
call this (has_host name) = done (have_host this name)
call this (has_event_type name) = done (have_event_type this name)
call this (has_service_type type) = done (have_service_type this type)
call this (has_ressource origin name) = done (have_ressource this origin name)
call this (has_column name col) = done (table_has_column this name col)
call this (has_backend me cfg) = done (have_backend this me cfg)
call this (has_service host service) = done (have_service this host service)
call this (gets_ressource_id origin res) = done (get_ressource_id this origin res)
call this (gets_backend me cfg) = done (get_backend this me cfg)
call this (gets_host name) = done (get_host this name)
call this (gets_event_type name) = done (get_event_type this name)
call this (gets_service_type type) = done (get_service_type this type)
call this (gets_service host service) = done (get_service this host service)
call this (gets_service_host service) = done (get_service_host this service)
call this (gets_ressource_name res) = done (get_ressource_name this res)
call this (gets_host_name host) = done (get_host_name this host)
call this (gets_service_name host service) = done (get_service_name this host service)

-- Calls of several objects, one after the other.
unfoldable pub calls : List (ℕ × Call) → M (Unit {0})
calls cs = fold_m cs tt λ _ (this, c). call this c
