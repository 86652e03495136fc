-- ===== src/DbTools/Tests.antt =====
-- Runs of `dbTools` over the test surroundings, and its theorems at concrete data.
use watched_back.Base.{ℕ, ◌≡◌, refl, false, str_eq, if◌then◌else◌, none, some, List, [], ◌∷◌}
use watched_back.World.{
  query, text, returned, undefined, stored, executed, grabbed, Env, World, add_event,
}
use watched_back.Monad.{run}
use watched_back.Binding.{is_bound}
use watched_back.TestEnv.{hosts_env, host_row, hosts_env-ReadsNumbers, hosts_env-IsTable}
use watched_back.DbTools.Have.{count_host, have_host}
use watched_back.DbTools.Get.{insert_host, select_host, get_host}
use watched_back.DbTools.{
  update, ensured, counted, with_connection, grab, first_answer, is_positive, as_id, found_id,
  keep_conn, set_conn,
}
use watched_back.DbTools.Call.{Call, calls, releases, gets_host, gets_service_host}
use watched_back.DbTools.Balance.{Balanced, calls-Balanced}
use watched_back.DbTools.Placeholders.{SentBound, calls-SentBound}
use watched_back.DbTools.Table.{Interns, one_cell}
use watched_back.DbTools.Interns.{get_host-Interns, get_host_again}
use watched_back.DbTools.Failures.{get_host_refused}

-- No object is connected yet.
abbrev start : World
start = record { trace = []; conn = λ p. none }

abbrev connected : World
connected = record { trace = grabbed 3 7 ∷ []; conn = λ p. some 7 }

abbrev session : List (ℕ × Call)
session =
    (3, gets_host "web") ∷ (4, gets_service_host 9) ∷ (3, releases) ∷ (3, gets_host "web") ∷ []

calls-Balanced_example : Balanced 3 (run (calls session) hosts_env start).1
calls-Balanced_example = calls-Balanced session hosts_env start (λ p. record { balance = refl }) 3

calls-SentBound_example : SentBound (run (calls session) hosts_env start).1
calls-SentBound_example = calls-SentBound session hosts_env start (record { all = tt })

get_host-Interns_example :
    Interns hosts_env connected count_host insert_host select_host host_row "web" (get_host 3 "web")
get_host-Interns_example =
    get_host-Interns 3 "web" connected 7 hosts_env-ReadsNumbers hosts_env-IsTable refl

first_lookup :
    Interns hosts_env connected count_host insert_host select_host host_row "web" (get_host 3 "web")
first_lookup = get_host-Interns 3 "web" connected 7 hosts_env-ReadsNumbers hosts_env-IsTable refl

host_found_again : run (get_host 3 "web") hosts_env first_lookup.after ≡ (
  returned first_lookup.id,
  add_event (add_event first_lookup.after (stored (count_host "web"))) (stored (select_host "web")),
)
host_found_again =
    get_host_again 3 "web" connected 7 hosts_env-ReadsNumbers hosts_env-IsTable refl first_lookup

-- A server that lost the right to insert.
abbrev read_only : Env
read_only = record hosts_env {
  exec = λ t q. returned false;
  store = λ t q.
      if str_eq q.template "select count(*) from h$hosts where name=%0q:h"
      then one_cell "0"
      else returned (some []);
}

get_host_refused_example : (run (get_host 3 "web") read_only connected).0 ≡ undefined
get_host_refused_example =
    get_host_refused read_only connected 3 7 "web"
      (record { column_zero = λ s. refl; to_int_zero = refl; to_int_one = refl }) refl refl refl
      (λ t. refl)

-- The first call of a new host inserts it; its id is the number that the server chose.
new_host : run (get_host 3 "web") hosts_env start ≡ (
  returned 4,
  record {
    trace =
        stored (select_host "web")
        ∷ executed (insert_host "web")
        ∷ stored (count_host "web")
        ∷ grabbed 3 7
        ∷ [];
    conn = update start.conn 3 (some 7);
  },
)
unfolding run get_host have_host ensured counted with_connection grab first_answer is_positive as_id
    found_id keep_conn set_conn
new_host = refl

-- The text of a template, scanned for what it wants.
unbound : is_bound (query "update t set a=%0:end where id=%1q:id" (("id", text "1") ∷ [])) ≡ false
unfolding is_bound
unbound = refl
