-- ===== src/Ressource/Tests.antt =====
-- One metric, its rules and its samples, over the concrete JSON and the server of the tests.
use watched_back.Base.{
  ℕ, ◌≡◌, ◌≢◌, inl, refl, String, true, false, not, Option, some, none, List, [], ◌∷◌, pos,
  if◌then◌else◌, arith,
}
use watched_back.Double.{Double}
use watched_back.World.{World, Env, returned, executed, add_event}
use watched_back.Monad.{run}
use watched_back.TestEnv.{hosts_env}
use watched_back.TestJson.{or_nothing, sample, samples, test_json, number_at, zero_double}
use watched_back.Alerter.{ResEvent}
use watched_back.Ressource.{Ressource, State}
use watched_back.Ressource.Parse.{
  Manager, triggers, is_over, has_test, update_event, check_rule, parse_line, parse, tell_of,
}
use watched_back.Ressource.Rules.{is_over-triggers}
use watched_back.Ressource.Opening.{IsDistinct, parse-IsDistinct}
use watched_back.Ressource.Samples.{Reads, sample_insert, parse_line_quiet}
use watched_back.Ressource.Fires.{check_rule_twice}
use watched_back.Ressource.Parse.{sample_of, test_value, fire, check_open, sample_value}
use watched_back.Alerter.{send_host_ressource, tell, send_rows, send_row, send}
use watched_back.DbTools.{with_connection, grab, found_name, first_answer, as_text}
use watched_back.DbTools.Name.{get_host_name, get_ressource_name}
use watched_back.Ressource.Ended.{parse_over}
use watched_back.Ressource.Keeps.{Heard, parse-Heard}

abbrev units : ℕ → Double
units n = record { units = pos n }

abbrev usage : Ressource
usage = record {
  is_service = false;
  host_id = 3;
  res_id = 4;
  baseurl = "/system/cpu";
  table = "cpu";
  serv_name = "";
}

-- More than 90.
abbrev busy : ResEvent
busy = record { event_type = 5; property = "load"; oper = ">"; value = units 90 }

abbrev ready : State
ready = record {
  def_keys = "timestamp" ∷ "load" ∷ [];
  base_insert = "insert into d$cpu values (%0:timestamp, %1:load)";
  event_factory = busy ∷ [];
  current_events = [];
}

abbrev open_state : State
open_state = record ready { current_events = (8, busy) ∷ [] }

abbrev nobody : Manager
nobody = record { address = 2; known = [] }

abbrev row_env : Env
row_env = record hosts_env {
  insert_id = λ t q. 8;
  store = λ t q. returned (some (("web" ∷ []) ∷ []));
}

abbrev connected : World
connected = record { trace = []; conn = λ p. some 7 }

abbrev at_load : ℕ → List (String × Double)
at_load d = ("timestamp", units 1000) ∷ ("load", units d) ∷ []

abbrev number_or_zero : Option Double → Double
number_or_zero none = zero_double
number_or_zero (some d) = d

abbrev float_at : ℕ → String → Double
float_at d k = number_or_zero (number_at (at_load d) k)

at_load-Reads : (d : ℕ) → Reads test_json (sample (at_load d)) (number_at (at_load d)) (float_at d)
at_load-Reads d = record {
  value = λ k. or_nothing (number_at (at_load d) k);
  member = λ k. refl;
  item = λ k. refl;
  not_null = λ k x h. rw h refl;
  as_double = λ k x h. rw h refl;
  as_float = λ k. ground arith;
}

busy_over_again :
    is_over busy (units 90) ≡ (if has_test busy then not (triggers busy (units 90)) else false)
busy_over_again = is_over-triggers busy (units 90)

over_at_the_limit : is_over busy (units 90) ≡ true
over_at_the_limit = refl

no_events-IsDistinct : IsDistinct ready
no_events-IsDistinct = record { events = tt }

parsed :
    (run
      (parse test_json usage nobody (samples (at_load 95 ∷ at_load 97 ∷ [])) ready)
      row_env
      connected).0
    ≡ returned open_state
unfolding run parse parse_line check_rule sample_of test_value fire tell_of send_host_ressource tell
    send_rows send_row send get_host_name get_ressource_name with_connection grab found_name
    first_answer check_open sample_value as_text
parsed = refl

parse-IsDistinct_example : IsDistinct open_state
parse-IsDistinct_example =
    parse-IsDistinct test_json usage nobody (samples (at_load 95 ∷ at_load 97 ∷ [])) row_env
      connected ready open_state (record { takes = λ t q. refl; positive = λ t q. ground arith })
      no_events-IsDistinct parsed

parse_line_quiet_example :
    run (parse_line test_json usage nobody (sample (at_load 50)) ready) row_env connected
    ≡ (returned ready, add_event connected (executed (sample_insert ready (float_at 50))))
parse_line_quiet_example =
    parse_line_quiet test_json usage nobody (sample (at_load 50)) row_env ready connected
      (at_load-Reads 50) (record { takes = λ t q. refl }) ((λ d h. ground arith), tt) tt

-- The world after a first sample at which the load is too high.
abbrev opened : World
opened =
    (run (check_rule test_json usage nobody (sample (at_load 95)) ready busy) row_env connected).1

opens :
    run (check_rule test_json usage nobody (sample (at_load 95)) ready busy) row_env connected
    ≡ (returned open_state, opened)
unfolding run check_rule sample_of test_value fire tell_of send_host_ressource tell send_rows
    send_row send get_host_name get_ressource_name with_connection grab found_name first_answer
    as_text
opens = refl

check_rule_twice_example :
    (open_state ≡ open_state)
    × (run (check_rule test_json usage nobody (sample (at_load 97)) open_state busy) row_env opened
        ≡ (returned open_state, add_event opened (executed (update_event usage 8 (units 97)))))
check_rule_twice_example =
    check_rule_twice test_json usage nobody (sample (at_load 95)) (sample (at_load 97)) row_env
      ready open_state busy (units 95) (units 97) connected opened (at_load-Reads 95)
      (at_load-Reads 97) (record { takes = λ t q. refl }) refl refl refl refl tt refl (ground arith)
      opens

alarm_passed_on :
    Heard []
      (run (parse test_json usage nobody (samples (at_load 95 ∷ [])) ready) row_env connected).1
alarm_passed_on =
    parse-Heard test_json usage nobody (samples (at_load 95 ∷ [])) ready row_env connected
      (record { all = tt })

abbrev later_env : Env
later_env = record row_env { insert_id = λ t q. 9 }

-- A load of 50 ends the event of a load over 90.
parse_over_example :
    (run
      (parse test_json usage nobody (samples (at_load 95 ∷ at_load 50 ∷ [])) open_state)
      later_env
      connected).0
    ≢ returned open_state
parse_over_example =
    parse_over test_json usage nobody (samples (at_load 95 ∷ at_load 50 ∷ []))
      (sample (at_load 95) ∷ []) (sample (at_load 50)) [] open_state open_state 8 busy later_env
      connected (record { other = λ t q. ground arith }) (inl (refl, refl)) refl
      record {
        value = or_nothing (number_at (at_load 50) "load");
        number = units 50;
        member = refl;
        item = refl;
        not_null = refl;
        as_double = refl;
        over = refl;
      }
