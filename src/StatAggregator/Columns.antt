-- ===== src/StatAggregator/Columns.antt =====
-- The columns of one data type in src/statAggregator.cpp: the statements that aggregate them, and the
-- tables that are still missing.
use watched_back.Base.{ℕ, String, ◌<>◌, Bool, none, [], ◌∷◌, if◌then◌else◌}
use watched_back.World.{Query, query, Row}
use watched_back.Monad.{M, pure, store, ◌>>=◌, ◌>>◌, cases, column, my_exec, attempt, fold_while}
use watched_back.DbTools.Have.{have_table, table_has_column}
use watched_back.StatAggregator.Texts.{
  create_am_head, create_am_tail, base_am_head, base_am_tail, create_ah_head, create_ah_tail,
  base_ah_head, base_ah_tail, create_ad_head, create_ad_tail, base_ad_head, base_ad_tail,
  create_al_head, colm, colh, al_column, columns_text, primary_text, index_text, constraint_text,
}

-- What the database has of a data type: the name of the first column, and which tables.
pub record Shape : Type 0 where
  pub id_name : String
  pub have_am : Bool
  pub have_ah : Bool
  pub have_ad : Bool
  pub have_al : Bool

unfoldable pub shape_of : ℕ → String → M Shape
shape_of this tbl = do
  of_service ← table_has_column this ("d$" <> tbl) "serv_id"
  am ← have_table this ("am$" <> tbl)
  ah ← have_table this ("ah$" <> tbl)
  ad ← have_table this ("ad$" <> tbl)
  al ← have_table this ("all$" <> tbl)
  pure (record {
    id_name = if of_service then "serv_id" else "host_id";
    have_am = am;
    have_ah = ah;
    have_ad = ad;
    have_al = al;
  })

-- The texts that grow: `base_am`, `base_ah` and `base_ad` are fields of the data.
pub record Texts : Type 0 where
  pub base_am : String
  pub base_ah : String
  pub base_ad : String
  pub create_am : String
  pub create_ah : String
  pub create_ad : String
  pub create_al : String

abbrev pub heads : String → String → Texts
heads tbl id_name = record {
  base_am = base_am_head tbl id_name;
  base_ah = base_ah_head tbl id_name;
  base_ad = base_ad_head tbl id_name;
  create_am = create_am_head tbl id_name;
  create_ah = create_ah_head tbl id_name;
  create_ad = create_ad_head tbl id_name;
  create_al = create_al_head tbl id_name;
}

-- A column goes to the minutes, the hours, the days and the view.
pub data Level : Type 0 where
  minutes hours days view : Level

-- The test for the aggregated column, whose answer the source does not use yet.
abbrev looks_for : ℕ → String → String → String → Texts → M Texts
looks_for this prefix tbl col t = do
  there ← table_has_column this (prefix <> ("$" <> tbl)) ("avg_" <> col)
  pure t

-- A text that grows, then the table's: it grows too, or the column is looked for.
unfoldable pub add_column : ℕ → String → Shape → String → Texts → Level → M Texts × Texts
add_column this tbl s col t minutes =
    let grown = record t { base_am = t.base_am <> colm col } in
    (
      if s.have_am
          then looks_for this "am" tbl col grown
          else pure (record grown { create_am = t.create_am <> colm col }),
      grown,
    )
add_column this tbl s col t hours =
    let grown = record t { base_ah = t.base_ah <> colh col } in
    (
      if s.have_ah
          then looks_for this "ah" tbl col grown
          else pure (record grown { create_ah = t.create_ah <> colh col }),
      grown,
    )
add_column this tbl s col t days =
    let grown = record t { base_ad = t.base_ad <> colh col } in
    (
      if s.have_ad
          then looks_for this "ad" tbl col grown
          else pure (record grown { create_ad = t.create_ad <> colh col }),
      grown,
    )
add_column this tbl s col t view =
    (pure (if s.have_al then t else record t { create_al = t.create_al <> al_column col }), t)

module _ (this : ℕ) (tbl : String) (s : Shape) where
  abbrev from : String
  from = "statAggregator::init"

  abbrev pub columns_query : Query
  columns_query = query (columns_text tbl s.id_name) []

  abbrev caught : {S : Type 0} → S → M S → M (S × Bool)
  caught = attempt columns_query from "Failed to get a data_table column"

  -- One column, of the query's first field.
  unfoldable pub read_column : Texts → Row → M (Texts × Bool)
  read_column t row = do
    (col, on) ← caught "" (column row 0)
    if on
        then fold_while (minutes ∷ hours ∷ days ∷ view ∷ []) t
            (λ u level. let (step, grown) = add_column this tbl s col u level in caught grown step)
        else pure (t, on)

  -- A table that is made, with its key, its index and its constraint. `indexed` is the name in the
  -- message of a failed index.
  unfoldable pub create_level : String → String → String → String → M (Unit {0})
  create_level prefix name indexed text = do
    my_exec (query text []) from ("Failed to create aggregate " <> name)
    my_exec (query (primary_text prefix tbl s.id_name) []) from
        ("Failed to alter aggregate " <> name)
    my_exec (query (index_text prefix tbl) []) from
        ("Failed to index res_id on " <> (indexed <> ("$" <> tbl)))
    my_exec (query (constraint_text prefix tbl s.id_name) []) from
        ("Failed to add constraint on " <> (prefix <> ("$" <> tbl)))

  -- The tables and the view that are missing. The delays are those of the three tables.
  unfoldable pub create_missing : Texts → ℕ → ℕ → ℕ → M (Unit {0})
  create_missing t delay_am delay_ah delay_ad = do
    (if s.have_am
        then pure tt
        else create_level "am" "AM" "am" (t.create_am <> create_am_tail tbl s.id_name delay_am))
    (if s.have_ah
        then pure tt
        else create_level "ah" "AH" "ah" (t.create_ah <> create_ah_tail tbl s.id_name delay_ah))
    (if s.have_ad
        then pure tt
        else create_level "ad" "AD" "ah" (t.create_ad <> create_ad_tail tbl s.id_name delay_ad))
    if s.have_al
        then pure tt
        else my_exec (query (t.create_al <> (" from d$" <> tbl)) []) from
            "Failed to create aggregate all view"

  -- The texts with their ends.
  abbrev pub completed : Texts → ℕ → ℕ → ℕ → Texts
  completed t delay_am delay_ah delay_ad = record t {
    base_am = t.base_am <> base_am_tail tbl s.id_name delay_am;
    base_ah = t.base_ah <> base_ah_tail tbl s.id_name delay_ah;
    base_ad = t.base_ad <> base_ad_tail tbl s.id_name delay_ad;
  }

  -- From the query for the columns to the end of its `myqCatch`.
  unfoldable pub read_columns : ℕ → ℕ → ℕ → M Texts
  read_columns delay_am delay_ah delay_ad = do
    let t = heads tbl s.id_name
    (res, on) ← caught none (store columns_query)
    cases res (pure t) λ rows. do
      (read, complete) ← fold_while rows t read_column
      if complete
          then (do
            create_missing read delay_am delay_ah delay_ad
            pure (completed read delay_am delay_ah delay_ad))
          else pure read
