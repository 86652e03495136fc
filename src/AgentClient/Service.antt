-- ===== src/AgentClient/Service.antt =====
-- One service of what an agent reports: its new log lines, its processes and its sockets, in
-- `agentClient::collect` of src/agentClient.cpp.
use watched_back.Base.{
  ℕ, ℤ, pos, String, ◌<>◌, Bool, [], ◌∷◌, ltb, str_eq, if◌then◌else◌, to_string,
}
use watched_back.Double.{Double}
use watched_back.World.{Query, query, uint, int, text, double}
use watched_back.Monad.{M, pure, lift, ◌>>=◌, ◌>>◌, fold_m, my_exec}
use watched_back.Json.{Jsoncpp}
use watched_back.Json.Read.{string_at, c_string_at, uint_at, int_at, double_at, walk}
use watched_back.DbTools.Have.{have_log_event, have_process_status, have_socket_status}
use watched_back.DbTools.Get.{get_host, get_service, get_service_type, get_event_type}
use watched_back.Alerter.{send_service, send_log}
use watched_back.Ressource.Parse.{Manager}
use watched_back.HttpClient.{next_u32}

abbrev pub insert_log : ℕ → Double → ℕ → String → String → ℕ → String → Query
insert_log serv_id ts event_type source mark line_no txt =
    query
      "insert into s$log_events(serv_id, timestamp, event_type, source_name, date_field, line_no, text) values (%0:srv, %1:ts, %2:et, %3q:src, %4q:dm, %5:ln, %6q:txt) ON DUPLICATE KEY UPDATE text=%6q:txt"
      (("srv", uint serv_id)
        ∷ ("ts", double ts)
        ∷ ("et", uint event_type)
        ∷ ("src", text source)
        ∷ ("dm", text mark)
        ∷ ("ln", uint line_no)
        ∷ ("txt", text txt)
        ∷ [])

abbrev pub insert_process : ℕ → String → String → String → String → String → Double → ℤ → Query
insert_process serv_id name path cwd user status ts pid =
    query
      "insert into s$process(serv_id, name, full_path, cwd, username, pid, status, timestamp) values (%0:srv, %1q:name, %2q:path, %3q:cwd, %4q:user, %5:pid, %6q:stts, %7:ts) ON DUPLICATE KEY UPDATE full_path=%2q:path, cwd=%3q:cwd, username=%4q:user, pid=%5:pid, status=%6q:stts, timestamp=%7:ts"
      (("srv", uint serv_id)
        ∷ ("name", text name)
        ∷ ("path", text path)
        ∷ ("cwd", text cwd)
        ∷ ("user", text user)
        ∷ ("stts", text status)
        ∷ ("ts", double ts)
        ∷ ("pid", int pid)
        ∷ [])

abbrev pub insert_socket : ℕ → String → String → Double → Query
insert_socket serv_id name status ts =
    query
      "insert into s$sockets(serv_id, name, status, timestamp) values (%0:srv, %1q:name, %2q:stts, %3:ts) ON DUPLICATE KEY UPDATE status=%2q:stts, timestamp=%3:ts"
      (("srv", uint serv_id) ∷ ("name", text name) ∷ ("stts", text status) ∷ ("ts", double ts) ∷ [])

abbrev pub update_type : ℕ → ℕ → Query
update_type type_id serv_id =
    query "update s$services set type_id=%0:t where id=%1:s"
      (("t", uint type_id) ∷ ("s", uint serv_id) ∷ [])

abbrev pub insert_history : ℕ → Double → ℕ → ℕ → Query
insert_history serv_id ts failed ok =
    query
      "insert into s$history(serv_id, timestamp, failed, missing, ok) values (%0:s, %1:t, %2:f, 0, %3:o) ON DUPLICATE KEY UPDATE failed=%2:f, ok=%3:o"
      (("s", uint serv_id) ∷ ("t", double ts) ∷ ("f", uint failed) ∷ ("o", uint ok) ∷ [])

-- The `uint32_t` counters of a service's parts; `nfailed` counts the failures that are new.
pub record Status : Type 0 where
  pub ok : ℕ
  pub failed : ℕ
  pub nfailed : ℕ

-- `ok++`, or `failed++` and, for a new failure, `nfailed++`.
abbrev pub count_ok : Status → Status
count_ok s = record s { ok = next_u32 s.ok }

abbrev pub count_failed : Bool → Status → Status
count_failed known s = record s {
  failed = next_u32 s.failed;
  nfailed = if known then s.nfailed else next_u32 s.nfailed;
}

module _ (J : Jsoncpp) (this serv_id : ℕ) where
  -- One log entry, with the highest event type and the text of the new entries so far.
  unfoldable pub collect_log : ℕ × String → J.Value → M (ℕ × String)
  collect_log (maxlvl, t) j = do
    source ← string_at J j "source"
    line_no ← uint_at J j "line_no"
    mark ← string_at J j "date_mark"
    known ← have_log_event this serv_id source line_no mark
    if known then pure (maxlvl, t) else (do
      line ← string_at J j "text"
      level ← string_at J j "level"
      event_type ← get_event_type this level
      ts ← double_at J j "timestamp"
      src ← c_string_at J j "source"
      dm ← c_string_at J j "date_mark"
      ln ← uint_at J j "line_no"
      txt ← c_string_at J j "text"
      my_exec (insert_log serv_id ts event_type src dm ln txt) "servicesClient::collectLog"
          "Failed to insert a log entry"
      pure (if ltb maxlvl event_type then event_type else maxlvl, t <> (line <> "\n")))

  unfoldable pub collect_process : Double → Status → J.Value → M Status
  collect_process now s j = do
    name ← c_string_at J j "name"
    path ← c_string_at J j "full_path"
    cwd ← c_string_at J j "cwd"
    user ← c_string_at J j "username"
    stts ← c_string_at J j "status"
    status ← string_at J j "status"
    let insert : ℤ → M (Unit {0}) = λ pid.
        my_exec (insert_process serv_id name path cwd user stts now pid) "servicesClient::collect"
          "Failed to insert process"
    if str_eq status "ok" then (do pid ← int_at J j "pid"; insert pid; pure (count_ok s)) else (do
      called ← string_at J j "name"
      how ← string_at J j "status"
      known ← have_process_status this serv_id called how
      insert (pos 0)
      pure (count_failed known s))

  -- Whether a socket is fine, and if not, whether that is known.
  unfoldable pub count_socket : Status → J.Value → M Status
  count_socket s j = do
    status ← string_at J j "status"
    if str_eq status "ok" then pure (count_ok s) else (do
      called ← string_at J j "name"
      how ← string_at J j "status"
      known ← have_socket_status this serv_id called how
      pure (count_failed known s))

  unfoldable pub collect_socket : Double → Status → J.Value → M Status
  collect_socket now s j = do
    counted ← count_socket s j
    name ← c_string_at J j "name"
    stts ← c_string_at J j "status"
    my_exec (insert_socket serv_id name stts now) "servicesClient::collect"
        "Failed to insert socket"
    pure counted

  -- The two loops over the parts of the service `i`.
  unfoldable pub collect_status : Double → J.Value → M Status
  collect_status now i = do
    processes ← walk J i ("status" ∷ "process" ∷ [])
    s ←
        fold_m (J.elements processes) (record { ok = 0; failed = 0; nfailed = 0 })
          (collect_process now)
    sockets ← walk J i ("status" ∷ "sockets" ∷ [])
    fold_m (J.elements sockets) s (collect_socket now)

abbrev pub failure_message : String → String → ℕ → String
failure_message service host failed =
    "Service "
    <> (service <> (" on " <> (host <> (" have " <> (to_string failed <> " failed componant")))))

-- One round of the loop over the services: the host's id.
unfoldable pub collect_service : (J : Jsoncpp) → ℕ → Manager → Double → J.Value → String → M ℕ
collect_service J this alert now services key = do
  i ← lift (J.at services key)
  logs ← walk J i ("logs" ∷ [])
  host ← string_at J logs "host"
  host_id ← get_host this host
  serv_id ← get_service this host_id key
  properties ← walk J i ("status" ∷ "properties" ∷ [])
  type ← string_at J properties "type"
  type_id ← get_service_type this type
  entries ← walk J i ("logs" ∷ "entries" ∷ [])
  (maxlvl, t) ← fold_m (J.elements entries) (0, "") (collect_log J this serv_id)
  (if ltb 0 maxlvl then send_log alert.address alert.known host_id serv_id maxlvl t else pure tt)
  s ← collect_status J this serv_id now i
  (if ltb 0 s.nfailed
      then (do
        named ← string_at J i "host"
        send_service alert.address alert.known host_id serv_id (failure_message key named s.failed))
      else pure tt)
  my_exec (update_type type_id serv_id) "servicesClient::collect" "Failed to update type"
  my_exec (insert_history serv_id now s.failed s.ok) "servicesClient::collect"
      "Failed to insert history"
  pure host_id
