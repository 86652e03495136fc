-- ===== src/StatAggregator/Loading.antt =====
-- The loop of src/statAggregator.cpp over the data types that the database configures.
use watched_back.Base.{
  ℕ, String, Bool, true, false, none, some, [], ◌∷◌, ltb, if◌then◌else◌, lookup, put,
}
use watched_back.World.{Row}
use watched_back.Monad.{M, pure, store, ◌>>=◌, cases, column, to_uint, attempt, fold_while}
use watched_back.StatAggregator.{AggregData, new_data, StatAggregator}
use watched_back.StatAggregator.Texts.{configs_query}
use watched_back.StatAggregator.Columns.{Texts, shape_of, read_columns}

-- The fields of the data that a row assigns, in order.
pub data Field : Type 0 where
  delay_am delay_ah delay_ad retention_d retention_am retention_ah retention_ad : Field

abbrev pub set_field : AggregData → Field → ℕ → AggregData
set_field d delay_am n = record d { delay_am = n }
set_field d delay_ah n = record d { delay_ah = n }
set_field d delay_ad n = record d { delay_ad = n }
set_field d retention_d n = record d { retention_d = n }
set_field d retention_am n = record d { retention_am = n }
set_field d retention_ah n = record d { retention_ah = n }
set_field d retention_ad n = record d { retention_ad = n }

-- `row["…"]`, by the place of the column in the query.
abbrev index : Field → ℕ
index delay_am = 1
index delay_ah = 2
index delay_ad = 3
index retention_d = 4
index retention_am = 5
index retention_ah = 6
index retention_ad = 7

abbrev caught : {S : Type 0} → S → M S → M (S × Bool)
caught = attempt configs_query "statAggregator::init" "Failed to get data_table list"

unfoldable pub read_field : Row → AggregData → Field → M AggregData
read_field row d f = do s ← column row (index f); n ← to_uint s; pure (set_field d f n)

-- The assignments, one by one: an exception leaves those before it.
unfoldable pub read_fields : Row → AggregData → M (AggregData × Bool)
read_fields row d =
    fold_while
      (delay_am ∷ delay_ah ∷ delay_ad ∷ retention_d ∷ retention_am ∷ retention_ah ∷ retention_ad
        ∷ [])
      d (λ d f. caught d (read_field row d f))

abbrev pub with_tables : StatAggregator → String → AggregData → StatAggregator
with_tables a tbl d = record a { tables = put a.tables tbl d }

-- `tables[tbl] = that; if (that->delay_am < thread_freq) thread_freq = that->delay_am;`
abbrev pub add_data : StatAggregator → String → AggregData → StatAggregator
add_data a tbl d = record a {
  tables = put a.tables tbl d;
  thread_freq = if ltb d.delay_am a.thread_freq then d.delay_am else a.thread_freq;
}

abbrev pub with_texts : AggregData → Texts → AggregData
with_texts d t = record d { base_am = t.base_am; base_ah = t.base_ah; base_ad = t.base_ad }

-- What follows for data that were not there: the texts, and the tables that are missing.
unfoldable pub build : StatAggregator → String → AggregData → M (StatAggregator × Bool)
build a tbl d = do
  (shape, on) ← caught none (do s ← shape_of a.address tbl; pure (some s))
  cases shape (pure (a, on)) λ s. do
    t ← read_columns a.address tbl s d.delay_am d.delay_ah d.delay_ad
    pure (with_tables a tbl (with_texts d t), true)

-- The body of the loop from the second line on, for the data type `tbl`. The assignments to data
-- that are in the map already reach the map; new data get there after them all.
unfoldable pub load_data : StatAggregator → String → Row → M (StatAggregator × Bool)
load_data a tbl row =
    cases (lookup a.tables tbl)
      (do
        (d, on) ← read_fields row new_data
        if on then build (add_data a tbl d) tbl d else pure (a, false))
      (λ known. do (d, on) ← read_fields row known; pure (with_tables a tbl d, on))

unfoldable pub load_row : StatAggregator → Row → M (StatAggregator × Bool)
load_row a row = do
  (tbl, on) ← caught "" (column row 0)
  if on then load_data a tbl row else pure (a, false)

-- From the query for the data types to the end of its `myqCatch`.
unfoldable pub load : StatAggregator → M StatAggregator
load a = do
  (res, on) ← caught none (store configs_query)
  cases res (pure a) λ rows. do (a', complete) ← fold_while rows a load_row; pure a'
