-- ===== src/DbPool/Calls.antt =====
-- Calls of the pool, one after the other.
use watched_back.Base.{ℕ, suc, Option, none, some, List, [], ◌∷◌}
use watched_back.DbPool.{DbPool, grab, release, and_then}

-- A `grab` or a `release`, of the program or of mysql++.
pub data PoolCall : Type 0 where
  takes gives : PoolCall

abbrev pub pool_call : PoolCall → DbPool → Option DbPool
pool_call takes p = grab p
pool_call gives p = some (release p)

-- `none` if one of the calls waits.
unfoldable pub pool_calls : List PoolCall → DbPool → Option DbPool
pool_calls [] p = some p
pool_calls (c ∷ cs) p = and_then (pool_call c p) λ q. pool_calls cs q

-- Connections that are lent, from `n` on, if no more are given back than were lent: `none` if
-- more are.
abbrev pub lent : ℕ → List PoolCall → Option ℕ
lent n [] = some n
lent n (takes ∷ cs) = lent (suc n) cs
lent ℕ.zero (gives ∷ cs) = none
lent (suc n) (gives ∷ cs) = lent n cs
