-- ===== src/DbTools/Placeholders.antt =====
-- Each query of `dbTools` has a default under the name of each placeholder of its template.
use watched_back.Base.{ℕ, ◌≡◌, List, true, All, arith}
use watched_back.Binding.{is_bound}
use watched_back.World.{Event, stored, executed, World, Env}
use watched_back.Monad.{run, ◌>>=◌, cases}
use watched_back.Monad.Keeps.{Keeps, AllowsLog}
use watched_back.DbTools.{grab, release, keep_conn, set_conn}
use watched_back.DbTools.Keeps.{Releases}
use watched_back.DbTools.Call.{Call, calls}
use watched_back.DbTools.Bound.{AllowsBound, calls-Keeps}

abbrev pub IsBoundEvent : Event → Type 0
IsBoundEvent (stored q) = is_bound q ≡ true
IsBoundEvent (executed q) = is_bound q ≡ true
IsBoundEvent _ = Unit

-- Every query that was sent had all its placeholders bound.
pub record SentBound (w : World) : Type 0 where
  pub all : All IsBoundEvent w.trace

log-SentBound : AllowsLog SentBound
log-SentBound = record { at = λ n from msg. record { at = λ w b. record { all = (tt, b.all) } } }

grab-SentBound : (this : ℕ) → Keeps SentBound (grab this)
unfolding grab ◌>>=◌ cases keep_conn set_conn
grab-SentBound this = record { at = λ e w b. record { all = ground (arith, b.all) } }

release-SentBound : (this : ℕ) → Keeps SentBound (release this)
unfolding release ◌>>=◌ cases set_conn
release-SentBound this = record { at = λ e w b. record { all = ground (arith, b.all) } }

pub SentBound-AllowsBound : AllowsBound SentBound
SentBound-AllowsBound = record {
  tolerates = record { log = log-SentBound; grabs = grab-SentBound };
  stores = λ q h. record { at = λ w b. record { all = (h, b.all) } };
  execs = λ q h. record { at = λ w b. record { all = (h, b.all) } };
}

pub SentBound-Releases : Releases SentBound
SentBound-Releases = record { each = release-SentBound }

-- Whatever the objects call, and however the run ends: if every query sent before was bound, so is
-- every query of the run. Each placeholder of each template, by its name, has a default.
pub calls-SentBound :
    (cs : List (ℕ × Call)) (e : Env) (w : World) → SentBound w → SentBound (run (calls cs) e w).1
unfolding run
calls-SentBound cs e w b = (calls-Keeps cs SentBound-AllowsBound SentBound-Releases).at e w b
