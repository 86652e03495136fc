-- ===== src/StatAggregator/Build.antt =====
-- What the aggregator makes of a data type that it sees for the first time, when the database has none
-- of its tables: the statements that it executes, and those that it keeps for the rounds.
use watched_back.Base.{
  ℕ, ◌≡◌, refl, ◌∙◌, String, ◌<>◌, true, false, none, some, List, [], ◌∷◌, ◌++◌, map, All, lookup,
  lookup-put,
}
use watched_back.World.{query, Row, returned, stored, Env, World, add_event}
use watched_back.Monad.{run, cases, my_exec, fold_while}
use watched_back.Monad.Runs.{bind_run, run-attempt, run-store, run-pure}
use watched_back.Monad.Sends.{Sends, after, bind-Sends, map-Sends}
use watched_back.Ressource.Samples.{TakesAll, my_exec_taken}
use watched_back.StatAggregator.Texts.{
  create_am_head, create_am_tail, base_am_head, base_am_tail, create_ah_head, create_ah_tail,
  base_ah_head, base_ah_tail, create_ad_head, create_ad_tail, base_ad_head, base_ad_tail,
  create_al_head, colm, colh, al_column, primary_text, index_text, constraint_text,
}
use watched_back.StatAggregator.{AggregData, StatAggregator}
use watched_back.StatAggregator.Loading.{with_tables, with_texts, build}
use watched_back.StatAggregator.Columns.{
  shape_of, Shape, Texts, heads, add_column, columns_query, read_column, create_level,
  create_missing, completed, read_columns,
}

-- A text with others behind it.
abbrev pub appended : String → List String → String
appended s [] = s
appended s (t ∷ ts) = appended (s <> t) ts

module _ (tbl id_name : String) where
  abbrev pub nothing_there : Shape
  nothing_there = record {
    id_name = id_name;
    have_am = false;
    have_ah = false;
    have_ad = false;
    have_al = false;
  }

  abbrev level : String → String → List String
  level prefix text =
      text
      ∷ primary_text prefix tbl id_name
      ∷ index_text prefix tbl
      ∷ constraint_text prefix tbl id_name
      ∷ []

  -- The tables with their keys, indexes and constraints, then the view.
  abbrev pub creations : List String → ℕ → ℕ → ℕ → List String
  creations cols delay_am delay_ah delay_ad =
      level "am" (
        appended (create_am_head tbl id_name) (map colm cols)
        <> create_am_tail tbl id_name delay_am)
      ++ (level "ah" (
            appended (create_ah_head tbl id_name) (map colh cols)
            <> create_ah_tail tbl id_name delay_ah)
          ++ (level "ad" (
                appended (create_ad_head tbl id_name) (map colh cols)
                <> create_ad_tail tbl id_name delay_ad)
              ++ (appended (create_al_head tbl id_name) (map al_column cols) <> (" from d$" <> tbl))
                ∷ []))

  -- The inserts, with the columns of the tables in the same order.
  abbrev pub inserts : List String → ℕ → ℕ → ℕ → String × String × String
  inserts cols delay_am delay_ah delay_ad = (
    appended (base_am_head tbl id_name) (map colm cols) <> base_am_tail tbl id_name delay_am,
    appended (base_ah_head tbl id_name) (map colh cols) <> base_ah_tail tbl id_name delay_ah,
    appended (base_ad_head tbl id_name) (map colh cols) <> base_ad_tail tbl id_name delay_ad,
  )

  -- The texts behind some columns.
  abbrev with_columns : Texts → List String → Texts
  with_columns t cols = record {
    base_am = appended t.base_am (map colm cols);
    base_ah = appended t.base_ah (map colh cols);
    base_ad = appended t.base_ad (map colh cols);
    create_am = appended t.create_am (map colm cols);
    create_ah = appended t.create_ah (map colh cols);
    create_ad = appended t.create_ad (map colh cols);
    create_al = appended t.create_al (map al_column cols);
  }

  module _ (this : ℕ) (e : Env) where
    run-read_column :
        (t : Texts) (row : Row) (col : String) (w : World)
        → e.column row 0 ≡ returned col
        → run (read_column this tbl nothing_there t row) e w
          ≡ (returned (with_columns t (col ∷ []), true), w)
    unfolding run read_column add_column
    run-read_column t row col w h = rw h refl

    run-rows :
        (rows : List Row) (name : Row → String) (t : Texts) (w : World)
        → All (λ r. e.column r 0 ≡ returned (name r)) rows
        → run (fold_while rows t (read_column this tbl nothing_there)) e w
          ≡ (returned (with_columns t (map name rows), true), w)
    unfolding fold_while
    run-rows [] name t w all = run-pure (t, true) e w
    run-rows (r ∷ rows) name t w (h, all) =
        bind_run _ _ e w w _ (run-read_column t r (name r) w h) ∙ run-rows rows name _ w all

    module _ (takes : TakesAll e) where
      my_exec-Sends :
          (text from msg : String) → Sends e (my_exec (query text []) from msg) tt (text ∷ [])
      my_exec-Sends text from msg = record { at = λ w. my_exec_taken e _ from msg w takes }

      create_level-Sends :
          (prefix name indexed text : String)
          → Sends e
              (create_level this tbl nothing_there prefix name indexed text)
              tt
              (level prefix text)
      unfolding create_level
      create_level-Sends prefix name indexed text = bind-Sends _ (my_exec-Sends text _ _) (
          bind-Sends _ (my_exec-Sends _ _ _)
            (bind-Sends _ (my_exec-Sends _ _ _) (my_exec-Sends _ _ _)))

      create_missing-Sends :
          (t : Texts) (cols : List String) (delay_am delay_ah delay_ad : ℕ)
          → Sends e
              (create_missing this tbl nothing_there
                (with_columns (heads tbl id_name) cols)
                delay_am
                delay_ah
                delay_ad)
              tt
              (creations cols delay_am delay_ah delay_ad)
      unfolding create_missing
      create_missing-Sends t cols delay_am delay_ah delay_ad =
          bind-Sends _ (create_level-Sends "am" "AM" "am" _) (
            bind-Sends _ (create_level-Sends "ah" "AH" "ah" _)
              (bind-Sends _ (create_level-Sends "ad" "AD" "ah" _) (my_exec-Sends _ _ _)))

      run-read_columns :
          (rows : List Row) (name : Row → String) (delay_am delay_ah delay_ad : ℕ) (w : World)
          → let q = columns_query this tbl nothing_there in
            e.store w.trace q ≡ returned (some rows)
            → All (λ r. e.column r 0 ≡ returned (name r)) rows
            → run (read_columns this tbl nothing_there delay_am delay_ah delay_ad) e w ≡ (
              returned (
                  completed this tbl nothing_there
                    (with_columns (heads tbl id_name) (map name rows))
                    delay_am
                    delay_ah
                    delay_ad),
              after (add_event w (stored q)) (creations (map name rows) delay_am delay_ah delay_ad),
            )
      unfolding read_columns cases
      run-read_columns rows name delay_am delay_ah delay_ad w h all =
          let v = add_event w (stored (columns_query this tbl nothing_there)) in
          bind_run _ _ e w v (some rows, true)
            (run-attempt _ _ _ none (some rows) _ e w v (run-store _ (some rows) e w h))
          ∙ bind_run _ _ e v v _ (run-rows rows name (heads tbl id_name) v all)
          ∙ (map-Sends _ (
                create_missing-Sends (heads tbl id_name) (map name rows) delay_am delay_ah
                  delay_ad)).at
              v

-- A server that takes every statement, and where a data type `tbl` has none of its tables. Building
-- it executes the statements that make the three tables, each with its key, its index and its
-- constraint, and the view, in this order and no others; the aggregator then keeps for `tbl` the
-- three inserts, which have the columns of the tables in the order in which the tables were made.
pub build-creates :
    (a : StatAggregator) (tbl id_name : String) (d : AggregData) (rows : List Row)
    (name : Row → String) (e : Env) (w v : World)
    → TakesAll e
    → run (shape_of a.address tbl) e w ≡ (returned (nothing_there tbl id_name), v)
    → e.store v.trace (columns_query a.address tbl (nothing_there tbl id_name))
      ≡ returned (some rows)
    → All (λ r. e.column r 0 ≡ returned (name r)) rows
    → let cols = map name rows in
      (a' : StatAggregator) × (d' : AggregData) × (run (build a tbl d) e w ≡ (
        returned (a', true),
        after
            (add_event v (stored (columns_query a.address tbl (nothing_there tbl id_name))))
            (creations tbl id_name cols d.delay_am d.delay_ah d.delay_ad),
      ))
      × (lookup a'.tables tbl ≡ some d')
      × ((d'.base_am, d'.base_ah, d'.base_ad)
          ≡ inserts tbl id_name cols d.delay_am d.delay_ah d.delay_ad)
unfolding build cases
build-creates a tbl id_name d rows name e w v takes shape h all =
    let t =
      completed a.address tbl (nothing_there tbl id_name)
        (with_columns tbl id_name (heads tbl id_name) (map name rows)) d.delay_am d.delay_ah
        d.delay_ad in
    (
      with_tables a tbl (with_texts d t),
      with_texts d t,
      bind_run _ _ e w v (some (nothing_there tbl id_name), true)
            (run-attempt _ _ _ none (some (nothing_there tbl id_name)) _ e w v
              (bind_run _ _ e w v _ shape ∙ run-pure _ e v))
          ∙ bind_run _ _ e v _ t (
              run-read_columns tbl id_name a.address e takes rows name d.delay_am d.delay_ah
                d.delay_ad v h all)
          ∙ run-pure _ e _,
      lookup-put a.tables tbl (with_texts d t),
      refl,
    )
