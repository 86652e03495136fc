-- ===== src/DbTools/Have.antt =====
-- The tests of src/dbTools.cpp for a row, a table or a column.
use watched_back.Base.{ℕ, String, ◌<>◌, Bool, false, [], ◌∷◌, if◌then◌else◌, to_string}
use watched_back.World.{Query, query, text, uint}
use watched_back.Monad.{M, pure, ◌>>=◌}
use watched_back.DbTools.{counted}

-- `dbTools::haveProcessStatus`
unfoldable pub have_process_status : ℕ → ℕ → String → String → M Bool
have_process_status this serv_id name status =
    counted this "dbTools::haveProcessStatus"
      (query "select count(*) from s$process where serv_id=%0:id and name=%1q:na and status=%2q:st"
        (("id", uint serv_id) ∷ ("na", text name) ∷ ("st", text status) ∷ []))
      ("Failed to get count for " <> to_string serv_id)

-- `dbTools::haveSocketStatus`
unfoldable pub have_socket_status : ℕ → ℕ → String → String → M Bool
have_socket_status this serv_id name status =
    counted this "dbTools::haveSocketStatus"
      (query "select count(*) from s$sockets where serv_id=%0:id and name=%1q:na and status=%2q:st"
        (("id", uint serv_id) ∷ ("na", text name) ∷ ("st", text status) ∷ []))
      ("Failed to get count for " <> to_string serv_id)

-- `dbTools::haveLogEvent`
unfoldable pub have_log_event : ℕ → ℕ → String → ℕ → String → M Bool
have_log_event this serv_id source_name line_no date_field =
    counted this "dbTools::haveLogEvent"
      (query
        "select count(*) from s$log_events where serv_id=%0:id and source_name=%1q:sn and line_no=%2:ln and date_field=%3q:df"
        (("id", uint serv_id)
          ∷ ("sn", text source_name)
          ∷ ("ln", uint line_no)
          ∷ ("df", text date_field)
          ∷ []))
      ("Failed to get count for " <> to_string serv_id)

-- `dbTools::haveTable`
unfoldable pub have_table : ℕ → String → M Bool
have_table this name =
    counted this "dbTools::haveTable"
      (query
        "select count(*) from information_schema.tables where TABLE_SCHEMA=DATABASE() and table_name=%0q:tn"
        (("tn", text name) ∷ []))
      ("Failed to get count for " <> name)

-- `dbTools::haveRessource`
unfoldable pub have_ressource : ℕ → String → String → M Bool
have_ressource this origin name =
    counted this "dbTools::haveRessource"
      (query "select count(*) from c$ressources where name=%0q:tn and origin=%1q:or"
        (("tn", text name) ∷ ("or", text origin) ∷ []))
      ("Failed to get count for " <> name)

-- `dbTools::tableHasColumn`
unfoldable pub table_has_column : ℕ → String → String → M Bool
table_has_column this name col = do
  there ← have_table this name
  if there
      then counted this "dbTools::tableHasColumn"
          (query
            "select count(*) from information_schema.columns where TABLE_SCHEMA=DATABASE() and table_name=%0q:tn and column_name=%1q:cl"
            (("tn", text name) ∷ ("cl", text col) ∷ []))
          ("Failed to get count for " <> (name <> ("." <> col)))
      else pure false

abbrev pub count_backend : String → String → Query
count_backend me cfg =
    query "select count(*) from b$backend where hostname=%0q:h and filename=%1q:f"
      (("h", text me) ∷ ("f", text cfg) ∷ [])

-- `dbTools::haveBackend`
unfoldable pub have_backend : ℕ → String → String → M Bool
have_backend this me cfg =
    counted this "dbTools::haveBackend" (count_backend me cfg)
      ("Failed to get count for " <> (me <> (" - " <> cfg)))

abbrev pub count_host : String → Query
count_host name = query "select count(*) from h$hosts where name=%0q:h" (("h", text name) ∷ [])

-- `dbTools::haveHost`
unfoldable pub have_host : ℕ → String → M Bool
have_host this name =
    counted this "dbTools::haveHost" (count_host name) ("Failed to get count for " <> name)

abbrev pub count_service : ℕ → String → Query
count_service host_id service =
    query "select count(*) from s$services where host_id=%0:id and name=%1q:na"
      (("id", uint host_id) ∷ ("na", text service) ∷ [])

-- `dbTools::haveService`
unfoldable pub have_service : ℕ → ℕ → String → M Bool
have_service this host_id service =
    counted this "dbTools::haveService" (count_service host_id service)
      ("Failed to get count for " <> (service <> (" on host " <> to_string host_id)))

abbrev pub count_event_type : String → Query
count_event_type name =
    query "select count(*) from c$event_types where lower(name)=lower(%0q:t)"
      (("t", text name) ∷ [])

-- `dbTools::haveEventType`
unfoldable pub have_event_type : ℕ → String → M Bool
have_event_type this name =
    counted this "dbTools::haveEventType" (count_event_type name)
      ("Failed to get count for " <> name)

abbrev pub count_service_type : String → Query
count_service_type type =
    query "select count(*) from s$types where name=%0q:t" (("t", text type) ∷ [])

-- `dbTools::haveServiceType`
unfoldable pub have_service_type : ℕ → String → M Bool
have_service_type this type =
    counted this "dbTools::haveServiceType" (count_service_type type)
      ("Failed to get count for " <> type)
