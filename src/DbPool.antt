-- ===== src/DbPool.antt =====
-- `dbPool` of include/backend.h: a count of the connections in use, a `uint32_t`, over the pool of
-- mysql++. Its `grab` and `release` override those of mysql++.
pub mod Calls
pub mod Bounds
mod Tests
use watched_back.Base.{
  ℕ, suc, ◌+◌, ◌-◌, ◌%◌, ◌^◌, ℤ, to_u32, Bool, Option, none, some, ltb, if◌then◌else◌,
}
use watched_back.World.{Outcome}
use watched_back.Monad.{M, pure, lift, ◌>>=◌}
use watched_back.Json.{Jsoncpp}

pub record DbPool : Type 0 where
  pub pool_size : ℕ
  pub used_count : ℕ

-- `dbPool::dbPool`
unfoldable pub construct : (J : Jsoncpp) → J.Value → M DbPool
construct J cfg = do
  v ← lift (J.at cfg "pool_size")
  size ← lift (J.as_int v)
  pure (record { pool_size = to_u32 size; used_count = 0 })

-- The test of the loop in `grab`: the caller sleeps.
abbrev pub waits : DbPool → Bool
waits p = ltb p.pool_size p.used_count

-- `++usedCount`
abbrev pub count_one : DbPool → DbPool
count_one p = record p { used_count = suc p.used_count % 2 ^ 32 }

-- `dbPool::grab`. `none`: as long as nobody releases, the caller does not come back.
unfoldable pub grab : DbPool → Option DbPool
grab p = if waits p then none else some (count_one p)

-- `dbPool::release`
unfoldable pub release : DbPool → DbPool
release p = record p { used_count = (p.used_count + (2 ^ 32 - 1)) % 2 ^ 32 }

-- Two waits in a row.
abbrev pub and_then : {A : Type 0} → Option A → (A → Option A) → Option A
and_then none f = none
and_then (some a) f = f a
