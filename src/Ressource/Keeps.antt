-- ===== src/Ressource/Keeps.antt =====
-- The effects of a client's parsing: its alerts reach only alerters that the manager knows.
use watched_back.Base.{ℕ, String, ◌≡◌, Bool, true, List, [], All, arith}
use watched_back.Double.{Double}
use watched_back.World.{Param, Event, Query, alerted, executed, World, Env}
use watched_back.Monad.{my_exec, run, ◌>>=◌, cases}
use watched_back.Monad.Keeps.{
  Keeps, AllowsLog, Allows, keeps_rules, if-Keeps, my_exec-Keeps, fold_m-Keeps, bind-Keeps,
  pure-Keeps,
}
use watched_back.Json.{Jsoncpp}
use watched_back.DbTools.{grab, keep_conn, set_conn}
use watched_back.Alerter.{ResEvent, knows}
use watched_back.Alerter.Keeps.{AllowsAlerts, send_serv_ressource-Keeps, send_host_ressource-Keeps}
use watched_back.Ressource.{Ressource, State}
use watched_back.Ressource.Parse.{
  Manager, sample_of, test_value, tell_of, fire, check_rule, check_open, sample_value, parse_line,
  parse,
}

-- An invariant that admits the alerts of known alerters, and any statement.
pub record AllowsSamples (known : List String) (P : World → Type 0) : Type 0 where
  pub alerts : AllowsAlerts known P
  pub execs : (q : Query) → Allows P (executed q)

module _ {P : World → Type 0} where
  statement-Keeps :
      (known : List String) (q : Query) (from msg : String)
      → AllowsSamples known P
      → Keeps P (my_exec q from msg)
  statement-Keeps known q from msg k =
      my_exec-Keeps q from msg k.alerts.bound.tolerates.log (k.execs q)

module _ {P : World → Type 0} (J : Jsoncpp) (r : Ressource) (alert : Manager) (line : J.Value) where
  sample_of-Keeps : (p : String) → Keeps P (sample_of J r alert line p)
  unfolding sample_of
  sample_of-Keeps p = search keeps_rules

  test_value-Keeps :
      (test : ResEvent → Double → Bool) (e : ResEvent) (v : J.Value)
      → Keeps P (test_value J r alert line test e v)
  unfolding test_value
  test_value-Keeps test e v = search keeps_rules

  tell_of-Keeps :
      (e : ResEvent) (current : Double)
      → AllowsSamples alert.known P
      → Keeps P (tell_of J r alert line e current)
  unfolding tell_of
  tell_of-Keeps e current k =
      if-Keeps r.is_service _ _ (send_serv_ressource-Keeps _ _ _ _ _ _ k.alerts)
        (send_host_ressource-Keeps _ _ _ _ _ _ k.alerts)

  fire-Keeps :
      (s : State) (e : ResEvent) (v : J.Value)
      → AllowsSamples alert.known P
      → Keeps P (fire J r alert line s e v)
  unfolding fire
  fire-Keeps s e v k = search (keeps_rules, statement-Keeps alert.known, tell_of-Keeps) depth 12

  check_rule-Keeps :
      (s : State) (e : ResEvent)
      → AllowsSamples alert.known P
      → Keeps P (check_rule J r alert line s e)
  unfolding check_rule
  check_rule-Keeps s e k = search (keeps_rules, sample_of-Keeps, test_value-Keeps, fire-Keeps)

  check_open-Keeps :
      (id : ℕ) (e : ResEvent)
      → AllowsSamples alert.known P
      → Keeps P (check_open J r alert line (id, e))
  unfolding check_open
  check_open-Keeps id e k =
      search (keeps_rules, sample_of-Keeps, test_value-Keeps, statement-Keeps alert.known) depth 9

  sample_value-Keeps :
      (values : List (String × Param)) (k : String) → Keeps P (sample_value J r alert line values k)
  unfolding sample_value
  sample_value-Keeps values k = search keeps_rules

  parse_line-Keeps :
      (s : State) → AllowsSamples alert.known P → Keeps P (parse_line J r alert line s)
  unfolding parse_line
  parse_line-Keeps s k =
      bind-Keeps _ _ (fold_m-Keeps s.event_factory s _ λ s e. check_rule-Keeps s e k) λ s'.
        bind-Keeps _ _ (fold_m-Keeps s'.current_events tt _ λ u (id, e). check_open-Keeps id e k)
          λ _.
            bind-Keeps _ _ (fold_m-Keeps s'.def_keys [] _ sample_value-Keeps)
              λ values. bind-Keeps _ _ (statement-Keeps alert.known _ _ _ k) λ _. pure-Keeps s'

pub parse-Keeps :
    {P : World → Type 0} (J : Jsoncpp) (r : Ressource) (alert : Manager) (samples : J.Value)
    (s : State)
    → AllowsSamples alert.known P
    → Keeps P (parse J r alert samples s)
unfolding parse
parse-Keeps J r alert samples s k =
    fold_m-Keeps (J.elements samples) s _ λ s' line. parse_line-Keeps J r alert line s' k

abbrev pub IsHeard : List String → Event → Type 0
IsHeard known (alerted a l d s m) = knows known a ≡ true
IsHeard known _ = Unit

pub record Heard (known : List String) (w : World) : Type 0 where
  pub all : All (IsHeard known) w.trace

log-Heard : (known : List String) → AllowsLog (Heard known)
log-Heard known = record { at = λ n from msg. record { at = λ w b. record { all = (tt, b.all) } } }

grab-Heard : (known : List String) (this : ℕ) → Keeps (Heard known) (grab this)
unfolding grab ◌>>=◌ cases keep_conn set_conn
grab-Heard known this = record { at = λ e w b. record { all = ground (arith, b.all) } }

pub Heard-AllowsSamples : (known : List String) → AllowsSamples known (Heard known)
Heard-AllowsSamples known = record {
  alerts = record {
    bound = record {
      tolerates = record { log = log-Heard known; grabs = grab-Heard known };
      stores = λ q h. record { at = λ w b. record { all = (tt, b.all) } };
      execs = λ q h. record { at = λ w b. record { all = (tt, b.all) } };
    };
    alerts = λ a l d s m h. record { at = λ w b. record { all = (h, b.all) } };
  };
  execs = λ q. record { at = λ w b. record { all = (tt, b.all) } };
}

-- Whatever samples a client parses, and however that ends: each `sendAlert` of the run goes to an
-- alerter that the manager knows, if that was so of the trace before.
pub parse-Heard :
    (J : Jsoncpp) (r : Ressource) (alert : Manager) (samples : J.Value) (s : State) (e : Env)
    (w : World)
    → Heard alert.known w
    → Heard alert.known (run (parse J r alert samples s) e w).1
unfolding run
parse-Heard J r alert samples s e w h =
    (parse-Keeps J r alert samples s (Heard-AllowsSamples alert.known)).at e w h
