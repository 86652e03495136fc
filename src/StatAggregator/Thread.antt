-- ===== src/StatAggregator/Thread.antt =====
-- The thread of src/statAggregator.cpp: one round loads the data types and runs what is due.
use watched_back.Base.{ℕ, zero, suc, String, Bool, true, false, none, some, Option, if◌then◌else◌}
use watched_back.Monad.{M, pure, ◌>>=◌, ◌>>◌, now, cases, error}
use watched_back.DbTools.{grab, release}
use watched_back.StatAggregator.{StatAggregator}
use watched_back.StatAggregator.Loading.{load}
use watched_back.StatAggregator.Turn.{turns}

module _ (left_over : String → Bool → String) where
  unfoldable pub work : StatAggregator → M StatAggregator
  work a = do
    loaded ← load a
    t ← now
    tables ← turns left_over t loaded.tables
    release a.address
    pure (record loaded { tables = tables })

  -- The body of `while (active)`, up to the sleep. `none` ends the thread, and leaves `active` true.
  unfoldable pub thread_round : StatAggregator → M (Option StatAggregator)
  thread_round a = do
    got ← grab a.address
    if got then (do a' ← work a; pure (some a')) else (do
      error "statAggregator::thread" "Failed to get a connection from the pool!"
      pure none)

  -- As many rounds of the thread as are asked for, or fewer where it ends itself: the aggregator,
  -- and whether the thread still runs.
  unfoldable pub thread_rounds : ℕ → StatAggregator → M (StatAggregator × Bool)
  thread_rounds zero a = pure (a, true)
  thread_rounds (suc n) a = do
    next ← thread_round a
    cases next (pure (a, false)) λ a'. thread_rounds n a'

-- `statAggregator::startThread`: whether a thread is started.
abbrev pub start_thread : StatAggregator → StatAggregator × Bool
start_thread a = if a.active then (a, false) else (record a { active = true }, true)
