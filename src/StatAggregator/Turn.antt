-- ===== src/StatAggregator/Turn.antt =====
-- The loop of src/statAggregator.cpp over the tables: the statements that are due.
use watched_back.Base.{ℕ, ◌*◌, String, ◌<>◌, Bool, false, List, [], ◌∷◌, ◌++◌, ltb, if◌then◌else◌}
use watched_back.Double.{Double, double_lt, double_add, of_ℕ}
use watched_back.World.{query}
use watched_back.Monad.{M, pure, exec, catch, ◌>>=◌, ◌>>◌, fold_m, log_query, on_exception}
use watched_back.StatAggregator.{AggregData}
use watched_back.StatAggregator.Texts.{purge_text}

-- `fp_ms + std::chrono::minutes(n)`
unfoldable pub after_minutes : Double → ℕ → Double
after_minutes t n = double_add t (of_ℕ (n * 60_000))

-- mysql++ keeps the text of a query in the object. `left_over` is what it keeps of a text that
-- `exec` was given, and whether the statement was accepted.
module _ (left_over : String → Bool → String) where
  -- `query << text; myqExec(query, "statAggregator::thread", msg)`, with the text that the query has,
  -- before and after.
  unfoldable pub send : String → String → String → M String
  send msg held text =
      let q = query (held <> text) [] in
      catch
        (do
          done ← exec q
          (if done then pure tt else log_query q "statAggregator::thread" msg)
          pure (left_over q.template done))
        (λ x. do on_exception q "statAggregator::thread" msg x; pure (left_over q.template false))

  -- `if (retention > 0) { … }`
  unfoldable pub purge : String → String → String → ℕ → String → M String
  purge msg prefix tbl retention held =
      if ltb 0 retention then send msg held (purge_text prefix tbl retention) else pure held

  -- The three parts of the loop's body, each with the data and the query's text.
  unfoldable pub turn_low : Double → String → AggregData → String → M (AggregData × String)
  turn_low t tbl d held =
      if double_lt d.next_low t
      then (do
        held1 ← send "Failed to insert aggregate AM" held d.base_am
        held2 ← purge "Failed to purge raw data" "d" tbl d.retention_d held1
        pure (record d { next_low = after_minutes t d.delay_am }, held2))
      else pure (d, held)

  unfoldable pub turn_med : Double → String → AggregData → String → M (AggregData × String)
  turn_med t tbl d held =
      if double_lt d.next_med t
      then (do
        held1 ← send "Failed to insert aggregate AH" held d.base_ah
        held2 ← purge "Failed to purge aggregate AM" "am" tbl d.retention_am held1
        pure (record d { next_med = after_minutes t 60 }, held2))
      else pure (d, held)

  unfoldable pub turn_high : Double → String → AggregData → String → M (AggregData × String)
  turn_high t tbl d held =
      if double_lt d.next_high t
      then (do
        held1 ← send "Failed to insert aggregate AD" held d.base_ad
        held2 ← purge "Failed to purge aggregate AH" "ah" tbl d.retention_ah held1
        held3 ← purge "Failed to purge aggregate AH" "ad" tbl d.retention_ad held2
        pure (record d { next_high = after_minutes t 720 }, held3))
      else pure (d, held)

  unfoldable pub turn : Double → String × AggregData → M (String × AggregData)
  turn t (tbl, d) = do
    (d1, held1) ← turn_low t tbl d ""
    (d2, held2) ← turn_med t tbl d1 held1
    (d3, held3) ← turn_high t tbl d2 held2
    pure (tbl, d3)

  unfoldable pub turns : Double → List (String × AggregData) → M (List (String × AggregData))
  turns t tables = fold_m tables [] λ done table. do next ← turn t table; pure (done ++ next ∷ [])
