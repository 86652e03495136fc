-- ===== src/Alerter/Tests.antt =====
-- A manager that knows one alerter, over a setup with two rows.
use watched_back.Base.{
  ℕ, zero, suc, ◌≡◌, refl, String, List, ◌≢◌, true, false, ◌||◌, [], ◌∷◌, some, map,
}
use watched_back.World.{
  alerted, logged, stored, executed, grabbed, Outcome, returned, Row, World, Env, add_event, threw,
  std_exception,
}
use watched_back.Monad.{run}
use watched_back.TestEnv.{hosts_env}
use watched_back.Alerter.Plugins.{DirEntry, load_lua_dir}
use watched_back.Alerter.Loading.{load_lua_dir-knows, load_lua_dir-Dotless}
use watched_back.Alerter.{alerter_query, services_query, send_service, critical}
use watched_back.Alerter.Call.{AlertCall, sends_service, sends_log, alert_calls}
use watched_back.Alerter.Known.{Proper, alert_calls-Proper}
use watched_back.Alerter.Pinned.{Pinned, alert_calls-Pinned}
use watched_back.Alerter.Delivery.{as_row, deliver, send_service-deliver}

abbrev setup : List (String × String)
setup = ("email", "ops") ∷ ("pager", "boss") ∷ []

abbrev field : Row → ℕ → Outcome String
field (a ∷ d ∷ []) zero = returned a
field (a ∷ d ∷ []) (suc i) = returned d
field _ i = threw (std_exception "no such field")

abbrev alert_env : Env
alert_env = record hosts_env { store = λ t q. returned (some (map as_row setup)); column = field }

abbrev connected : World
connected = record { trace = grabbed 1 7 ∷ []; conn = λ p. some 7 }

abbrev known : List String
known = "email" ∷ []

send_service-deliver_example : run (send_service 1 known 3 4 "web is down") alert_env connected ≡ (
  returned tt,
  deliver known critical "web is down" "web is down" setup
      (add_event connected (stored (services_query 4))),
)
send_service-deliver_example =
    send_service-deliver 1 7 known 3 4 "web is down" ("email", "ops") (("pager", "boss") ∷ [])
      connected (record { alerter_field = λ a d. refl; dest_field = λ a d. refl }) refl refl

one_alert_one_warning :
    deliver known critical "down" "down" setup connected
    ≡ add_event
        (add_event connected (alerted "email" 5 "ops" "down" "down"))
        (logged 2 "alerterManager::send" "Alerter pager NOT found to handle alert: down")
one_alert_one_warning = refl

abbrev alarm : List AlertCall
alarm = sends_service 3 4 "web is down" ∷ sends_log 3 4 2 "lines" ∷ []

alarm_heard : Proper known (run (alert_calls 1 known alarm) alert_env connected).1
alarm_heard = alert_calls-Proper 1 known alarm alert_env connected (record { all = (tt, tt) })

alert_calls-Pinned_example : Pinned 1 7 0 (run (alert_calls 1 known alarm) alert_env connected).1
alert_calls-Pinned_example = alert_calls-Pinned 1 known alarm alert_env connected 7 refl

abbrev email_lua : DirEntry
email_lua = record { file = "email.lua"; stat_ok = true; is_directory = false }

abbrev hidden : DirEntry
hidden = record { file = ".profile"; stat_ok = true; is_directory = false }

abbrev readme : DirEntry
readme = record { file = "README"; stat_ok = true; is_directory = false }

load_lua_dir-knows_example :
    (run (load_lua_dir 1 [] (hidden ∷ email_lua ∷ email_lua ∷ [])) alert_env connected
      ≡ (returned ("email" ∷ []), add_event connected (executed (alerter_query "email"))))
    × (true ≡ (false || true))
load_lua_dir-knows_example =
    load_lua_dir-knows 1 7 alert_env [] (hidden ∷ email_lua ∷ email_lua ∷ []) connected "email"
      (record { takes = λ t q. refl }) ((λ p. cc), ((λ p. cc), ((λ p. cc), tt))) refl

load_lua_dir-Dotless_example :
    (run (load_lua_dir 1 [] (email_lua ∷ readme ∷ [])) alert_env connected).0
    ≢ returned ("email" ∷ [])
load_lua_dir-Dotless_example =
    load_lua_dir-Dotless 1 alert_env (email_lua ∷ []) readme [] [] ("email" ∷ []) connected
      (record { seen = refl; no_dot = refl })
