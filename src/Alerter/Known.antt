-- ===== src/Alerter/Known.antt =====
-- Alerts reach only alerters that the manager knows, and its queries are bound.
use watched_back.Base.{ℕ, String, ◌≡◌, true, List, All, arith}
use watched_back.Binding.{is_bound}
use watched_back.World.{Event, alerted, stored, executed, World, Env}
use watched_back.Monad.{run, ◌>>=◌, cases}
use watched_back.Monad.Keeps.{Keeps, AllowsLog}
use watched_back.DbTools.{grab, keep_conn, set_conn}
use watched_back.Alerter.{knows}
use watched_back.Alerter.Keeps.{AllowsAlerts}
use watched_back.Alerter.Call.{AlertCall, alert_calls, alert_calls-Keeps}

abbrev pub IsProper : List String → Event → Type 0
IsProper known (alerted a l d s m) = knows known a ≡ true
IsProper known (stored q) = is_bound q ≡ true
IsProper known (executed q) = is_bound q ≡ true
IsProper known _ = Unit

pub record Proper (known : List String) (w : World) : Type 0 where
  pub all : All (IsProper known) w.trace

log-Proper : (known : List String) → AllowsLog (Proper known)
log-Proper known = record { at = λ n from msg. record { at = λ w b. record { all = (tt, b.all) } } }

grab-Proper : (known : List String) (this : ℕ) → Keeps (Proper known) (grab this)
unfolding grab ◌>>=◌ cases keep_conn set_conn
grab-Proper known this = record { at = λ e w b. record { all = ground (arith, b.all) } }

pub Proper-AllowsAlerts : (known : List String) → AllowsAlerts known (Proper known)
Proper-AllowsAlerts known = record {
  bound = record {
    tolerates = record { log = log-Proper known; grabs = grab-Proper known };
    stores = λ q h. record { at = λ w b. record { all = (h, b.all) } };
    execs = λ q h. record { at = λ w b. record { all = (h, b.all) } };
  };
  alerts = λ a l d s m h. record { at = λ w b. record { all = (h, b.all) } };
}

-- Whatever alerts are asked for, and however the run ends: each `sendAlert` goes to an alerter
-- that the manager knows, and each query sent has all its placeholders bound, if that was so of
-- the trace before.
pub alert_calls-Proper :
    (this : ℕ) (known : List String) (cs : List AlertCall) (e : Env) (w : World)
    → Proper known w
    → Proper known (run (alert_calls this known cs) e w).1
unfolding run
alert_calls-Proper this known cs e w p =
    (alert_calls-Keeps this known cs (Proper-AllowsAlerts known)).at e w p
