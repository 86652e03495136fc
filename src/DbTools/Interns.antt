-- ===== src/DbTools/Interns.antt =====
-- `getHost`, `getBackend`, `getService`, `getEventType` and `getServiceType` find or add a key.
use watched_back.Base.{ℕ, ◌≡◌, String, Option, some, ap, ◌∙◌}
use watched_back.World.{returned, Trace, Env, World, add_event, stored}
use watched_back.Monad.{run}
use watched_back.DbTools.Have.{
  count_backend, count_host, count_service, count_event_type, count_service_type, have_backend,
  have_host, have_service, have_event_type, have_service_type,
}
use watched_back.DbTools.Get.{
  insert_backend, select_backend, get_backend, insert_host, select_host, get_host, insert_service,
  select_service, get_service, insert_event_type, select_event_type, get_event_type,
  insert_service_type, select_service_type, get_service_type,
}
use watched_back.DbTools.Table.{
  ReadsNumbers, IsTable, Interns, lookup-Interns, conn-looked_up, Interns_again,
}

-- The hosts' table of a lawful server: `getHost` on a connected object returns the id of the host,
-- which the table then holds. It sends the count and the select, with the insert between them
-- exactly when the host is new, and the ids of the other hosts stay.
pub get_host-Interns :
    {e : Env} {id_of : Trace → String → Option ℕ} (this : ℕ) (name : String) (w : World) (c : ℕ)
    → ReadsNumbers e
    → IsTable e count_host insert_host select_host id_of
    → w.conn this ≡ some c
    → Interns e w count_host insert_host select_host id_of name (get_host this name)
unfolding get_host have_host
get_host-Interns this name w c reads table h = lookup-Interns reads table this _ _ _ _ _ name w c h

-- So a second `getHost` of the name, right after the first, gives the same id and inserts nothing.
pub get_host_again :
    {e : Env} {id_of : Trace → String → Option ℕ} (this : ℕ) (name : String) (w : World) (c : ℕ)
    → ReadsNumbers e
    → IsTable e count_host insert_host select_host id_of
    → w.conn this ≡ some c
    → (first : Interns e w count_host insert_host select_host id_of name (get_host this name))
    → run (get_host this name) e first.after ≡ (
      returned first.id,
      add_event (add_event first.after (stored (count_host name))) (stored (select_host name)),
    )
get_host_again this name w c reads table h first = Interns_again first (
    get_host-Interns this name first.after c reads table
      (ap (λ v. v.conn this) first.sends ∙ ap (λ f. f this) (conn-looked_up _ _ _ _ w) ∙ h))

-- The same of `getBackend`, by the host and the configuration file.
pub get_backend-Interns :
    {e : Env} {id_of : Trace → String × String → Option ℕ} (this : ℕ) (me cfg : String) (w : World)
    (c : ℕ)
    → ReadsNumbers e
    → IsTable e
        (λ k. count_backend k.0 k.1)
        (λ k. insert_backend k.0 k.1)
        (λ k. select_backend k.0 k.1)
        id_of
    → w.conn this ≡ some c
    → Interns e w
        (λ k. count_backend k.0 k.1)
        (λ k. insert_backend k.0 k.1)
        (λ k. select_backend k.0 k.1)
        id_of
        (me, cfg)
        (get_backend this me cfg)
unfolding get_backend have_backend
get_backend-Interns this me cfg w c reads table h =
    lookup-Interns reads table this _ _ _ _ _ (me, cfg) w c h

-- Of `getService`, by the host's id and the name.
pub get_service-Interns :
    {e : Env} {id_of : Trace → ℕ × String → Option ℕ} (this host_id : ℕ) (service : String)
    (w : World) (c : ℕ)
    → ReadsNumbers e
    → IsTable e
        (λ k. count_service k.0 k.1)
        (λ k. insert_service k.0 k.1)
        (λ k. select_service k.0 k.1)
        id_of
    → w.conn this ≡ some c
    → Interns e w
        (λ k. count_service k.0 k.1)
        (λ k. insert_service k.0 k.1)
        (λ k. select_service k.0 k.1)
        id_of
        (host_id, service)
        (get_service this host_id service)
unfolding get_service have_service
get_service-Interns this host_id service w c reads table h =
    lookup-Interns reads table this _ _ _ _ _ (host_id, service) w c h

-- Of `getEventType`. The table's keys compare as the server's `lower` has it.
pub get_event_type-Interns :
    {e : Env} {id_of : Trace → String → Option ℕ} (this : ℕ) (name : String) (w : World) (c : ℕ)
    → ReadsNumbers e
    → IsTable e count_event_type insert_event_type select_event_type id_of
    → w.conn this ≡ some c
    → Interns e w count_event_type insert_event_type select_event_type id_of name
        (get_event_type this name)
unfolding get_event_type have_event_type
get_event_type-Interns this name w c reads table h =
    lookup-Interns reads table this _ _ _ _ _ name w c h

-- Of `getServiceType`.
pub get_service_type-Interns :
    {e : Env} {id_of : Trace → String → Option ℕ} (this : ℕ) (type : String) (w : World) (c : ℕ)
    → ReadsNumbers e
    → IsTable e count_service_type insert_service_type select_service_type id_of
    → w.conn this ≡ some c
    → Interns e w count_service_type insert_service_type select_service_type id_of type
        (get_service_type this type)
unfolding get_service_type have_service_type
get_service_type-Interns this type w c reads table h =
    lookup-Interns reads table this _ _ _ _ _ type w c h
