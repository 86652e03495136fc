-- ===== src/AgentClient/Counter.antt =====
-- `agentClient::updateCounter` and `agentClient::startThread` of src/agentClient.cpp.
use watched_back.Base.{ℕ, ◌&&◌, ◌||◌, [], ◌∷◌, ltb, ◌==◌, if◌then◌else◌}
use watched_back.Double.{Double}
use watched_back.World.{Query, query, uint, double}
use watched_back.Monad.{M, now, ◌>>=◌, my_exec}
use watched_back.DbTools.{with_connection}

-- The numbers that are stored as failed and as missing.
abbrev pub failed_missing : ℕ → ℕ → ℕ → ℕ × ℕ
failed_missing ok missing parse =
    if (ltb 0 missing || ltb 0 parse) && ok == 0 then (missing, 0) else (0, missing)

abbrev pub counter_query : ℕ → Double → ℕ × ℕ → ℕ → ℕ → Query
counter_query id ts (failed, missing) parse ok =
    query
      "insert into agt$history(agt_id, timestamp, failed, missing, parse, ok) values(%0:id,%1:ts,%2:fa,%3:mi,%4:pa,%5:ok) on duplicate key update failed=%2:fa, missing=%3:mi, parse=%4:pa, ok=%5:ok"
      (("id", uint id)
        ∷ ("ts", double ts)
        ∷ ("fa", uint failed)
        ∷ ("mi", uint missing)
        ∷ ("pa", uint parse)
        ∷ ("ok", uint ok)
        ∷ [])

-- `agentClient::updateCounter`. `alertFailed` does nothing.
unfoldable pub update_counter : ℕ → ℕ → ℕ → ℕ → ℕ → M (Unit {0})
update_counter this id ok missing parse = with_connection this "agentClient::updateCounter" tt (do
  ts ← now
  my_exec (counter_query id ts (failed_missing ok missing parse) parse ok)
      "agentClient::updateCounter" "Failed to update status")
