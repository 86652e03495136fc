-- ===== src/Alerter/Pinned.antt =====
-- The alert manager's methods call `grab` and never `release`.
use watched_back.Base.{ℕ, ◌≡◌, refl, String, List, some, arith, ==_iff}
use watched_back.World.{World, Env}
use watched_back.Monad.{run, ◌>>=◌, cases}
use watched_back.Monad.Keeps.{Keeps, AllowsLog}
use watched_back.DbTools.{grab, keep_conn, set_conn}
use watched_back.DbTools.Balance.{releases}
use watched_back.Alerter.Keeps.{AllowsAlerts}
use watched_back.Alerter.Call.{AlertCall, alert_calls, alert_calls-Keeps}

-- Object `p` still holds connection `c`, and has given back nothing but `n` earlier ones.
pub record Pinned (p c n : ℕ) (w : World) : Type 0 where
  pub holds : w.conn p ≡ some c
  pub given_back : releases p w.trace ≡ n

module _ (p c n : ℕ) where
  log-Pinned : AllowsLog (Pinned p c n)
  log-Pinned = record {
    at = λ k from msg. record { at = λ w b. record { holds = b.holds; given_back = b.given_back } };
  }

  grab-Pinned : (this : ℕ) → Keeps (Pinned p c n) (grab this)
  unfolding grab ◌>>=◌ cases keep_conn set_conn
  grab-Pinned this = record { at = λ e w b. ground (arith, ==_iff this p) }

  Pinned-AllowsAlerts : (known : List String) → AllowsAlerts known (Pinned p c n)
  Pinned-AllowsAlerts known = record {
    bound = record {
      tolerates = record { log = log-Pinned; grabs = grab-Pinned };
      stores = λ q h. record { at = λ w b. record { holds = b.holds; given_back = b.given_back } };
      execs = λ q h. record { at = λ w b. record { holds = b.holds; given_back = b.given_back } };
    };
    alerts =
        λ a l d s m h. record { at = λ w b. record { holds = b.holds; given_back = b.given_back } };
  }

-- Once the manager (or any other object) holds a connection, no sequence of alerts gives it back
-- or replaces it, whatever the server answers and however the run ends.
pub alert_calls-Pinned :
    (this : ℕ) (known : List String) (cs : List AlertCall) (e : Env) (w : World) (c : ℕ)
    → w.conn this ≡ some c
    → Pinned this c (releases this w.trace) (run (alert_calls this known cs) e w).1
unfolding run
alert_calls-Pinned this known cs e w c h =
    (alert_calls-Keeps this known cs (Pinned-AllowsAlerts this c (releases this w.trace) known)).at
      e w (record { holds = h; given_back = refl })
