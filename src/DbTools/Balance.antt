-- ===== src/DbTools/Balance.antt =====
-- Connections of the pool: what each object took from it, gave back and holds.
use watched_back.Base.{ℕ, ◌+◌, ◌≡◌, Option, none, some, List, [], ◌∷◌, arith, ◌==◌, if◌then◌else◌}
use watched_back.World.{grabbed, released, Trace, World, Env}
use watched_back.Monad.{run, ◌>>=◌, cases}
use watched_back.Monad.Keeps.{Keeps, AllowsLog}
use watched_back.DbTools.{grab, release, keep_conn, set_conn}
use watched_back.DbTools.Call.{Call, calls}
use watched_back.DbTools.Bound.{AllowsBound, calls-Keeps}

-- How often the object's `grab` took a connection from the pool, and `release` gave one back.
abbrev pub grabs : ℕ → Trace → ℕ
grabs p [] = 0
grabs p (grabbed q c ∷ t) = (if q == p then 1 else 0) + grabs p t
grabs p (_ ∷ t) = grabs p t

abbrev pub releases : ℕ → Trace → ℕ
releases p [] = 0
releases p (released q c ∷ t) = (if q == p then 1 else 0) + releases p t
releases p (_ ∷ t) = releases p t

abbrev pub held : Option ℕ → ℕ
held none = 0
held (some c) = 1

-- Object `p` took as many connections as it gave back and holds now.
pub record Balanced (p : ℕ) (w : World) : Type 0 where
  pub balance : grabs p w.trace ≡ releases p w.trace + held (w.conn p)

log-Balanced : (p : ℕ) → AllowsLog (Balanced p)
log-Balanced p = record { at = λ n from msg. record { at = λ w b. record { balance = b.balance } } }

grab-Balanced : (p this : ℕ) → Keeps (Balanced p) (grab this)
unfolding grab ◌>>=◌ cases keep_conn set_conn
grab-Balanced p this = record { at = λ e w b. record { balance = ground (arith, b.balance) } }

pub release-Balanced : (p this : ℕ) → Keeps (Balanced p) (release this)
unfolding release ◌>>=◌ cases set_conn
release-Balanced p this = record { at = λ e w b. record { balance = ground (arith, b.balance) } }

pub Balanced-AllowsBound : (p : ℕ) → AllowsBound (Balanced p)
Balanced-AllowsBound p = record {
  tolerates = record { log = log-Balanced p; grabs = grab-Balanced p };
  stores = λ q h. record { at = λ w b. record { balance = b.balance } };
  execs = λ q h. record { at = λ w b. record { balance = b.balance } };
}

-- Whatever the objects call, in whatever order, and however the run ends (an exception included):
-- if every object was balanced, so it is afterwards. Each took from the pool as many connections
-- as it gave back, and one more while its `db` is set.
pub calls-Balanced :
    (cs : List (ℕ × Call)) (e : Env) (w : World)
    → ((p : ℕ) → Balanced p w)
    → (p : ℕ) → Balanced p (run (calls cs) e w).1
unfolding run
calls-Balanced cs e w b p =
    (calls-Keeps cs (Balanced-AllowsBound p) (record { each = release-Balanced p })).at e w (b p)
