-- ===== src/StatAggregator/Steady.antt =====
-- A loading in which the database has no data type that is new: whatever fails, it returns.
use watched_back.Base.{◌≡◌, refl, ◌∙◌, String, Bool, false, Option, none, some, List, All, lookup}
use watched_back.World.{Row, Trace, Env}
use watched_back.Monad.{pure, ◌>>=◌, fold_while, cases}
use watched_back.Monad.Returns.{
  Returns, pure-Returns, bind-Returns, if_with-Returns, cases-some-Returns,
}
use watched_back.Monad.Settles.{
  Reads, Ends, Settles, pure-Settles, ask_or_throw-Settles, bind-Settles, store-Settles,
  attempt-Returns, attempt_done-Returns, fold_while-Returns, fold_while-All-Returns,
}
use watched_back.StatAggregator.{AggregData, StatAggregator}
use watched_back.StatAggregator.Texts.{configs_query}
use watched_back.StatAggregator.Loading.{Field, read_field, read_fields, load_data, load_row, load}
use watched_back.StatAggregator.Known.{plan, Kept, Kept-refl, Kept-trans, plan-set_field, put-Kept}

-- The aggregator has the data type of the row, if the row has one.
abbrev pub KnownRow : Env → StatAggregator → Row → Type 0
KnownRow e a row = Ends (λ tbl. (d : AggregData) × (lookup a.tables tbl ≡ some d)) (e.column row 0)

abbrev pub KnownRows : Env → StatAggregator → Option (List Row) → Type 0
KnownRows e a none = Unit
KnownRows e a (some rows) = All (KnownRow e a) rows

module _ (e : Env) (reads : Reads e) where
  read_field-Settles :
      (row : Row) (d0 d : AggregData) (f : Field)
      → plan d ≡ plan d0
      → Settles e (λ d'. plan d' ≡ plan d0) (read_field row d f)
  unfolding read_field
  read_field-Settles row d0 d f h =
      bind-Settles _ _ (ask_or_throw-Settles _ λ w. reads.cells row _) λ s _.
        bind-Settles _ _ (ask_or_throw-Settles _ λ w. reads.numbers s)
          λ n _. pure-Settles _ (plan-set_field d f n ∙ h)

  read_fields-Returns :
      (row : Row) (d : AggregData)
      → Returns e (λ (r : AggregData × Bool). plan r.0 ≡ plan d) (read_fields row d)
  unfolding read_fields
  read_fields-Returns row d = fold_while-Returns {Q = λ d'. plan d' ≡ plan d} _ d _ refl λ d' f h.
      attempt-Returns {Q = λ d'. plan d' ≡ plan d} _ _ _ d' _ h (read_field-Settles row d d' f h)

  load_data-Returns :
      (a b : StatAggregator) (tbl : String) (row : Row) (d : AggregData)
      → lookup b.tables tbl ≡ some d
      → Kept a b
      → Returns e (λ (r : StatAggregator × Bool). Kept a r.0) (load_data b tbl row)
  unfolding load_data
  load_data-Returns a b tbl row d there k = cases-some-Returns _ _ _ d there (
      bind-Returns _ _ (read_fields-Returns row d)
        λ (d', on) p. pure-Returns _ (Kept-trans a b _ k (put-Kept b tbl d d' there p)))

  load_row-Returns :
      (a b : StatAggregator) (row : Row)
      → KnownRow e a row
      → Kept a b
      → Returns e (λ (r : StatAggregator × Bool). Kept a r.0) (load_row b row)
  unfolding load_row
  load_row-Returns a b row known k =
      bind-Returns _ _
        (attempt_done-Returns {Q = λ tbl. (d : AggregData) × (lookup a.tables tbl ≡ some d)} _ _ _
          "" _ (ask_or_throw-Settles _ λ w. known))
        λ (tbl, on) named.
          if_with-Returns on _ _
            (λ done.
              let (d, there) = named done in
              let (d', there', same) = k.plans tbl d there in
              load_data-Returns a b tbl row d' there' k)
            (pure-Returns (b, false) k)

  load_rows-Returns :
      (a : StatAggregator) (res : Option (List Row))
      → KnownRows e a res
      → Returns e
          (Kept a)
          (cases res (pure a) λ rows. do (a', complete) ← fold_while rows a load_row; pure a')
  unfolding cases
  load_rows-Returns a none known = pure-Returns a (Kept-refl a)
  load_rows-Returns a (some rows) known =
      bind-Returns {R = λ (r : StatAggregator × Bool). Kept a r.0} _ _
        (fold_while-All-Returns (KnownRow e a) rows a load_row known (Kept-refl a)
          λ b row p k. load_row-Returns a b row p k)
        λ (a', complete) k. pure-Returns a' k

-- A database that has no data type that is new to the aggregator, or none at all, or that refuses
-- the query; fields may be missing or of another form, as long as nothing is undefined. Loading the
-- data types always returns, and keeps every data type with its three insert statements and its
-- next times.
pub load-Returns :
    (e : Env) (a : StatAggregator)
    → Reads e
    → ((t : Trace) → Ends (KnownRows e a) (e.store t configs_query))
    → Returns e (Kept a) (load a)
unfolding load
load-Returns e a reads answers =
    bind-Returns {R = λ (r : Option (List Row) × Bool). KnownRows e a r.0} _ _
      (attempt-Returns {Q = KnownRows e a} _ _ _ none _ tt (store-Settles configs_query answers))
      λ (res, on) known. load_rows-Returns e reads a res known
