-- ===== src/DbTools/Bound.antt =====
-- Each operation of `dbTools` keeps an invariant that admits bound queries: for this, all of its
-- queries are bound.
use watched_back.Base.{ℕ, String, ◌≡◌, refl, true, false, List}
use watched_back.World.{Query, World, stored, executed}
use watched_back.Monad.{M, pure, ◌>>=◌}
use watched_back.Monad.Keeps.{
  Keeps, Allows, bind-Keeps, if-Keeps, pure-Keeps, lift-Keeps, log-Keeps, fold_m-Keeps,
}
use watched_back.Binding.{is_bound}
use watched_back.DbTools.Keeps.{
  Releases, Tolerates, counted-Keeps, found_id-Keeps, found_name-Keeps, ensured-Keeps,
  with_connection-Keeps,
}
use watched_back.DbTools.Have.{
  have_process_status, have_socket_status, have_log_event, have_table, have_ressource,
  table_has_column, have_backend, have_host, have_service, have_event_type, have_service_type,
}
use watched_back.DbTools.Get.{
  get_ressource_id, get_backend, get_host, get_service, get_service_host, get_event_type,
  get_service_type,
}
use watched_back.DbTools.Name.{get_ressource_name, get_service_name, get_host_name}
use watched_back.DbTools.Call.{
  Call, call, calls, grabs, releases, has_process_status, has_socket_status, has_log_event,
  has_table, has_host, has_event_type, has_service_type, has_ressource, has_column, has_backend,
  has_service, gets_ressource_id, gets_backend, gets_host, gets_event_type, gets_service_type,
  gets_service, gets_service_host, gets_ressource_name, gets_host_name, gets_service_name,
}

-- An invariant that admits log lines, connections that come and go, and bound queries.
pub record AllowsBound (P : World → Type 0) : Type 0 where
  pub tolerates : Tolerates P
  pub stores : (q : Query) → is_bound q ≡ true → Allows P (stored q)
  pub execs : (q : Query) → is_bound q ≡ true → Allows P (executed q)

module _ {P : World → Type 0} where
  pub have_process_status-Keeps :
      (this : ℕ) (serv : ℕ) (name status : String)
      → AllowsBound P
      → Keeps P (have_process_status this serv name status)
  unfolding have_process_status is_bound
  have_process_status-Keeps this serv name status b =
      counted-Keeps this _ _ _ b.tolerates (b.stores _ refl)

  pub have_socket_status-Keeps :
      (this : ℕ) (serv : ℕ) (name status : String)
      → AllowsBound P
      → Keeps P (have_socket_status this serv name status)
  unfolding have_socket_status is_bound
  have_socket_status-Keeps this serv name status b =
      counted-Keeps this _ _ _ b.tolerates (b.stores _ refl)

  pub have_log_event-Keeps :
      (this : ℕ) (serv : ℕ) (source : String) (line : ℕ) (date : String)
      → AllowsBound P
      → Keeps P (have_log_event this serv source line date)
  unfolding have_log_event is_bound
  have_log_event-Keeps this serv source line date b =
      counted-Keeps this _ _ _ b.tolerates (b.stores _ refl)

  pub have_table-Keeps : (this : ℕ) (name : String) → AllowsBound P → Keeps P (have_table this name)
  unfolding have_table is_bound
  have_table-Keeps this name b = counted-Keeps this _ _ _ b.tolerates (b.stores _ refl)

  pub have_ressource-Keeps :
      (this : ℕ) (origin name : String) → AllowsBound P → Keeps P (have_ressource this origin name)
  unfolding have_ressource is_bound
  have_ressource-Keeps this origin name b = counted-Keeps this _ _ _ b.tolerates (b.stores _ refl)

  pub have_backend-Keeps :
      (this : ℕ) (me cfg : String) → AllowsBound P → Keeps P (have_backend this me cfg)
  unfolding have_backend is_bound
  have_backend-Keeps this me cfg b = counted-Keeps this _ _ _ b.tolerates (b.stores _ refl)

  pub have_host-Keeps : (this : ℕ) (name : String) → AllowsBound P → Keeps P (have_host this name)
  unfolding have_host is_bound
  have_host-Keeps this name b = counted-Keeps this _ _ _ b.tolerates (b.stores _ refl)

  pub have_service-Keeps :
      (this : ℕ) (host : ℕ) (service : String)
      → AllowsBound P
      → Keeps P (have_service this host service)
  unfolding have_service is_bound
  have_service-Keeps this host service b = counted-Keeps this _ _ _ b.tolerates (b.stores _ refl)

  pub have_event_type-Keeps :
      (this : ℕ) (name : String) → AllowsBound P → Keeps P (have_event_type this name)
  unfolding have_event_type is_bound
  have_event_type-Keeps this name b = counted-Keeps this _ _ _ b.tolerates (b.stores _ refl)

  pub have_service_type-Keeps :
      (this : ℕ) (type : String) → AllowsBound P → Keeps P (have_service_type this type)
  unfolding have_service_type is_bound
  have_service_type-Keeps this type b = counted-Keeps this _ _ _ b.tolerates (b.stores _ refl)

  pub table_has_column-Keeps :
      (this : ℕ) (name col : String) → AllowsBound P → Keeps P (table_has_column this name col)
  unfolding table_has_column is_bound
  table_has_column-Keeps this name col b = bind-Keeps _ _ (have_table-Keeps this name b) λ there.
      if-Keeps there _ _ (counted-Keeps this _ _ _ b.tolerates (b.stores _ refl)) (pure-Keeps false)

  pub get_ressource_id-Keeps :
      (this : ℕ) (origin res : String) → AllowsBound P → Keeps P (get_ressource_id this origin res)
  unfolding get_ressource_id is_bound
  get_ressource_id-Keeps this origin res b =
      with_connection-Keeps this _ _ _ b.tolerates
        (found_id-Keeps _ _ _ b.tolerates (b.stores _ refl))

  pub get_service_host-Keeps :
      (this : ℕ) (service : ℕ) → AllowsBound P → Keeps P (get_service_host this service)
  unfolding get_service_host is_bound
  get_service_host-Keeps this service b =
      with_connection-Keeps this _ _ _ b.tolerates
        (found_id-Keeps _ _ _ b.tolerates (b.stores _ refl))

  pub get_backend-Keeps :
      (this : ℕ) (me cfg : String) → AllowsBound P → Keeps P (get_backend this me cfg)
  unfolding get_backend is_bound
  get_backend-Keeps this me cfg b =
      ensured-Keeps this _ _ _ _ _ _ b.tolerates (have_backend-Keeps this me cfg b) (b.execs _ refl)
        (b.stores _ refl)

  pub get_host-Keeps : (this : ℕ) (name : String) → AllowsBound P → Keeps P (get_host this name)
  unfolding get_host is_bound
  get_host-Keeps this name b =
      ensured-Keeps this _ _ _ _ _ _ b.tolerates (have_host-Keeps this name b) (b.execs _ refl)
        (b.stores _ refl)

  pub get_service-Keeps :
      (this : ℕ) (host : ℕ) (service : String)
      → AllowsBound P
      → Keeps P (get_service this host service)
  unfolding get_service is_bound
  get_service-Keeps this host service b =
      ensured-Keeps this _ _ _ _ _ _ b.tolerates (have_service-Keeps this host service b)
        (b.execs _ refl) (b.stores _ refl)

  pub get_event_type-Keeps :
      (this : ℕ) (name : String) → AllowsBound P → Keeps P (get_event_type this name)
  unfolding get_event_type is_bound
  get_event_type-Keeps this name b =
      ensured-Keeps this _ _ _ _ _ _ b.tolerates (have_event_type-Keeps this name b)
        (b.execs _ refl) (b.stores _ refl)

  pub get_service_type-Keeps :
      (this : ℕ) (type : String) → AllowsBound P → Keeps P (get_service_type this type)
  unfolding get_service_type is_bound
  get_service_type-Keeps this type b =
      ensured-Keeps this _ _ _ _ _ _ b.tolerates (have_service_type-Keeps this type b)
        (b.execs _ refl) (b.stores _ refl)

  pub get_ressource_name-Keeps :
      (this res : ℕ) → AllowsBound P → Keeps P (get_ressource_name this res)
  unfolding get_ressource_name is_bound
  get_ressource_name-Keeps this res b = bind-Keeps _ _ (b.tolerates.grabs this) λ got.
      if-Keeps got _ _ (found_name-Keeps _ _ _ b.tolerates (b.stores _ refl))
        (bind-Keeps _ _ (log-Keeps _ _ _ b.tolerates.log) λ _. lift-Keeps _)

  pub get_service_name-Keeps :
      (this : ℕ) (host service : ℕ) → AllowsBound P → Keeps P (get_service_name this host service)
  unfolding get_service_name is_bound
  get_service_name-Keeps this host service b =
      with_connection-Keeps this _ _ _ b.tolerates
        (found_name-Keeps _ _ _ b.tolerates (b.stores _ refl))

  pub get_host_name-Keeps :
      (this : ℕ) (host : ℕ) → AllowsBound P → Keeps P (get_host_name this host)
  unfolding get_host_name is_bound
  get_host_name-Keeps this host b =
      with_connection-Keeps this _ _ _ b.tolerates
        (found_name-Keeps _ _ _ b.tolerates (b.stores _ refl))

  done-Keeps : {A : Type 0} (m : M A) → Keeps P m → Keeps P (m >>= λ _. pure tt)
  done-Keeps m k = bind-Keeps m _ k λ _. pure-Keeps tt

  pub call-Keeps : (this : ℕ) (c : Call) → AllowsBound P → Releases P → Keeps P (call this c)
  unfolding call
  call-Keeps this grabs b r = done-Keeps _ (b.tolerates.grabs this)
  call-Keeps this releases b r = r.each this
  call-Keeps this (has_process_status x y z) b r =
      done-Keeps _ (have_process_status-Keeps this x y z b)
  call-Keeps this (has_socket_status x y z) b r =
      done-Keeps _ (have_socket_status-Keeps this x y z b)
  call-Keeps this (has_log_event x y z t) b r = done-Keeps _ (have_log_event-Keeps this x y z t b)
  call-Keeps this (has_table x) b r = done-Keeps _ (have_table-Keeps this x b)
  call-Keeps this (has_host x) b r = done-Keeps _ (have_host-Keeps this x b)
  call-Keeps this (has_event_type x) b r = done-Keeps _ (have_event_type-Keeps this x b)
  call-Keeps this (has_service_type x) b r = done-Keeps _ (have_service_type-Keeps this x b)
  call-Keeps this (has_ressource x y) b r = done-Keeps _ (have_ressource-Keeps this x y b)
  call-Keeps this (has_column x y) b r = done-Keeps _ (table_has_column-Keeps this x y b)
  call-Keeps this (has_backend x y) b r = done-Keeps _ (have_backend-Keeps this x y b)
  call-Keeps this (has_service x y) b r = done-Keeps _ (have_service-Keeps this x y b)
  call-Keeps this (gets_ressource_id x y) b r = done-Keeps _ (get_ressource_id-Keeps this x y b)
  call-Keeps this (gets_backend x y) b r = done-Keeps _ (get_backend-Keeps this x y b)
  call-Keeps this (gets_host x) b r = done-Keeps _ (get_host-Keeps this x b)
  call-Keeps this (gets_event_type x) b r = done-Keeps _ (get_event_type-Keeps this x b)
  call-Keeps this (gets_service_type x) b r = done-Keeps _ (get_service_type-Keeps this x b)
  call-Keeps this (gets_service x y) b r = done-Keeps _ (get_service-Keeps this x y b)
  call-Keeps this (gets_service_host x) b r = done-Keeps _ (get_service_host-Keeps this x b)
  call-Keeps this (gets_ressource_name x) b r = done-Keeps _ (get_ressource_name-Keeps this x b)
  call-Keeps this (gets_host_name x) b r = done-Keeps _ (get_host_name-Keeps this x b)
  call-Keeps this (gets_service_name x y) b r = done-Keeps _ (get_service_name-Keeps this x y b)

  pub calls-Keeps : (cs : List (ℕ × Call)) → AllowsBound P → Releases P → Keeps P (calls cs)
  unfolding calls
  calls-Keeps cs b r = fold_m-Keeps cs tt _ λ _ (this, c). call-Keeps this c b r
