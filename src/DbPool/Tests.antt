-- ===== src/DbPool/Tests.antt =====
-- A pool of one connection.
use watched_back.Base.{ℕ, ◌↔◌, ◌≤◌, ◌≡◌, refl, some, none, [], ◌∷◌, arith}
use watched_back.DbPool.{DbPool, grab, release}
use watched_back.DbPool.Calls.{takes, gives, pool_calls}
use watched_back.DbPool.Bounds.{pool_calls-bound, pool_calls-waits}

abbrev pool : ℕ → DbPool
pool used = record { pool_size = 1; used_count = used }

two_taken : pool_calls (takes ∷ gives ∷ takes ∷ takes ∷ []) (pool 0) ≡ some (pool 2)
unfolding pool_calls grab release
two_taken = refl

pool_calls-bound_example : ((pool 2).used_count ≡ 2) × (2 ≤ 2) × ((pool 2).pool_size ≡ 1)
pool_calls-bound_example =
    pool_calls-bound (takes ∷ gives ∷ takes ∷ takes ∷ []) (pool 0) (pool 2) 2 (ground arith) refl
      two_taken refl

pool_calls-waits_example :
    (pool_calls (takes ∷ []) (pool 2) ≡ none ↔ ◌≡◌ {A = ℕ} 2 2)
    × (pool_calls (gives ∷ takes ∷ []) (pool 2) ≡ some (pool 2))
pool_calls-waits_example =
    pool_calls-waits (takes ∷ gives ∷ takes ∷ takes ∷ []) (pool 0) (pool 2) 2 (ground arith) refl
      two_taken refl (ground arith)
