-- ===== src/DbTools/Get.antt =====
-- The lookups of src/dbTools.cpp that insert a missing row first, and `getRessourceId`,
-- `getServiceHost`, which do not.
use watched_back.Base.{ℕ, String, ◌<>◌, [], ◌∷◌, to_string}
use watched_back.World.{Query, query, text, uint}
use watched_back.Monad.{M}
use watched_back.DbTools.{with_connection, found_id, ensured}
use watched_back.DbTools.Have.{
  have_backend, have_host, have_service, have_event_type, have_service_type,
}

-- `dbTools::getRessourceId`
unfoldable pub get_ressource_id : ℕ → String → String → M ℕ
get_ressource_id this origin res = with_connection this "dbTools::getRessourceId" 0 (
    found_id
      (query "select id from c$ressources where name=%0q:rs and origin=%1q:or"
        (("rs", text res) ∷ ("or", text origin) ∷ []))
      "dbTools::getRessourceId" ("Failed to get name for " <> res))

abbrev pub insert_backend : String → String → Query
insert_backend me cfg =
    query "insert into b$backend(hostname,filename) values(%0q:h,%1q:f)"
      (("h", text me) ∷ ("f", text cfg) ∷ [])

abbrev pub select_backend : String → String → Query
select_backend me cfg =
    query "select id from b$backend where hostname=%0q:h and filename=%1q:f"
      (("h", text me) ∷ ("f", text cfg) ∷ [])

-- `dbTools::getBackend`
unfoldable pub get_backend : ℕ → String → String → M ℕ
get_backend this me cfg =
    ensured this "dbTools::getBackend" (have_backend this me cfg) (insert_backend me cfg)
      "Failed to insert host" (select_backend me cfg)
      ("Failed to get id for " <> (me <> (" - " <> cfg)))

abbrev pub insert_host : String → Query
insert_host name = query "insert into h$hosts(name) values(%0q:h)" (("h", text name) ∷ [])

abbrev pub select_host : String → Query
select_host name = query "select id from h$hosts where name=%0q:h" (("h", text name) ∷ [])

-- `dbTools::getHost`
unfoldable pub get_host : ℕ → String → M ℕ
get_host this name =
    ensured this "dbTools::getHost" (have_host this name) (insert_host name) "Failed to insert host"
      (select_host name) ("Failed to get id for " <> name)

abbrev pub insert_service : ℕ → String → Query
insert_service host_id service =
    query "insert into s$services(host_id,name) values(%0:id, %1q:na)"
      (("id", uint host_id) ∷ ("na", text service) ∷ [])

abbrev pub select_service : ℕ → String → Query
select_service host_id service =
    query "select id from s$services where host_id=%0:id and name=%1q:na"
      (("id", uint host_id) ∷ ("na", text service) ∷ [])

-- `dbTools::getService`
unfoldable pub get_service : ℕ → ℕ → String → M ℕ
get_service this host_id service =
    ensured this "dbTools::getService" (have_service this host_id service)
      (insert_service host_id service) "Failed to insert service" (select_service host_id service)
      ("Failed to get id for " <> (service <> (" on host " <> to_string host_id)))

-- `dbTools::getServiceHost`
unfoldable pub get_service_host : ℕ → ℕ → M ℕ
get_service_host this service = with_connection this "dbTools::getServiceHost" 0 (
    found_id (query "select host_id from s$services where id=%0:id" (("id", uint service) ∷ []))
      "dbTools::getServiceHost" ("Failed to get host_id for " <> to_string service))

abbrev pub insert_event_type : String → Query
insert_event_type name =
    query "insert into c$event_types(name) values(%0q:t)" (("t", text name) ∷ [])

abbrev pub select_event_type : String → Query
select_event_type name =
    query "select id from c$event_types where lower(name)=lower(%0q:t)" (("t", text name) ∷ [])

-- `dbTools::getEventType`
unfoldable pub get_event_type : ℕ → String → M ℕ
get_event_type this name =
    ensured this "dbTools::getEventType" (have_event_type this name) (insert_event_type name)
      "Failed to insert event_type" (select_event_type name) ("Failed to get id for " <> name)

abbrev pub insert_service_type : String → Query
insert_service_type type = query "insert into s$types(name) values(%0q:t)" (("t", text type) ∷ [])

abbrev pub select_service_type : String → Query
select_service_type type = query "select id from s$types where name=%0q:t" (("t", text type) ∷ [])

-- `dbTools::getServiceType`
unfoldable pub get_service_type : ℕ → String → M ℕ
get_service_type this type =
    ensured this "dbTools::getServiceType" (have_service_type this type) (insert_service_type type)
      "Failed to insert service_type" (select_service_type type) ("Failed to get id for " <> type)
