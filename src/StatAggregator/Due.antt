-- ===== src/StatAggregator/Due.antt =====
-- The statements of one round over the tables, described without the code's query object: for each
-- table what is due, in order, with the purges that its retentions ask for.
use watched_back.Base.{
  ℕ, ◌≡◌, String, Bool, true, List, [], ◌∷◌, ◌++◌, map, flat_map, ltb, if◌then◌else◌, nil-append,
  arith,
}
use watched_back.Double.{Double, double_lt}
use watched_back.World.{query, Env}
use watched_back.Monad.{run}
use watched_back.Monad.Sends.{Sends, map-Sends, if-Sends, pure-Sends, bind-Sends, collect-Sends}
use watched_back.Ressource.Samples.{TakesAll}
use watched_back.StatAggregator.{AggregData}
use watched_back.StatAggregator.Texts.{purge_text}
use watched_back.StatAggregator.Turn.{
  after_minutes, send, purge, turn_low, turn_med, turn_high, turn, turns,
}

-- What is due when the time has passed.
abbrev when : Bool → List String → List String
when b texts = if b then texts else []

abbrev purges : String → String → ℕ → List String
purges prefix tbl retention = when (ltb 0 retention) (purge_text prefix tbl retention ∷ [])

abbrev pub due : Double → String × AggregData → List String
due t (tbl, d) =
    when (double_lt d.next_low t) (d.base_am ∷ purges "d" tbl d.retention_d)
    ++ (when (double_lt d.next_med t) (d.base_ah ∷ purges "am" tbl d.retention_am)
        ++ when (double_lt d.next_high t)
            (d.base_ad ∷ (purges "ah" tbl d.retention_ah ++ purges "ad" tbl d.retention_ad)))

-- A part that ran is due again after the delay of the minutes, an hour, or half a day.
abbrev again : Double → Double → ℕ → Double
again t next minutes = if double_lt next t then after_minutes t minutes else next

abbrev pub rescheduled : Double → String × AggregData → String × AggregData
rescheduled t (tbl, d) = (
  tbl,
  record d {
    next_low = again t d.next_low d.delay_am;
    next_med = again t d.next_med 60;
    next_high = again t d.next_high 720;
  },
)

-- mysql++ empties a query whose statement was accepted.
pub record Empties (left_over : String → Bool → String) : Type 0 where
  pub accepted : (s : String) → left_over s true ≡ ""

module _ (left_over : String → Bool → String) (empties : Empties left_over) (e : Env)
    (takes : TakesAll e) where
  send-Sends : (msg text : String) → Sends e (send left_over msg "" text) "" (text ∷ [])
  unfolding run send
  send-Sends msg text = record {
    at = λ w.
        rw (nil-append text) ground
          (arith, takes.takes w.trace (query text []), empties.accepted text);
  }

  purge-Sends :
      (msg prefix tbl : String) (retention : ℕ)
      → Sends e (purge left_over msg prefix tbl retention "") "" (purges prefix tbl retention)
  unfolding purge
  purge-Sends msg prefix tbl retention =
      if-Sends (ltb 0 retention) _ _ (λ _. "") (send-Sends msg _) (pure-Sends "")

  turn_low-Sends :
      (t : Double) (tbl : String) (d : AggregData)
      → Sends e
          (turn_low left_over t tbl d "")
          (record d { next_low = again t d.next_low d.delay_am }, "")
          (when (double_lt d.next_low t) (d.base_am ∷ purges "d" tbl d.retention_d))
  unfolding turn_low
  turn_low-Sends t tbl d =
      if-Sends (double_lt d.next_low t) _ _
        (λ b. (record d { next_low = if b then after_minutes t d.delay_am else d.next_low }, ""))
        (bind-Sends _ (send-Sends _ d.base_am) (map-Sends _ (purge-Sends _ "d" tbl d.retention_d)))
        (pure-Sends (d, ""))

  turn_med-Sends :
      (t : Double) (tbl : String) (d : AggregData)
      → Sends e
          (turn_med left_over t tbl d "")
          (record d { next_med = again t d.next_med 60 }, "")
          (when (double_lt d.next_med t) (d.base_ah ∷ purges "am" tbl d.retention_am))
  unfolding turn_med
  turn_med-Sends t tbl d =
      if-Sends (double_lt d.next_med t) _ _
        (λ b. (record d { next_med = if b then after_minutes t 60 else d.next_med }, ""))
        (bind-Sends _ (send-Sends _ d.base_ah)
          (map-Sends _ (purge-Sends _ "am" tbl d.retention_am)))
        (pure-Sends (d, ""))

  turn_high-Sends :
      (t : Double) (tbl : String) (d : AggregData)
      → Sends e
          (turn_high left_over t tbl d "")
          (record d { next_high = again t d.next_high 720 }, "")
          (when
            (double_lt d.next_high t)
            (d.base_ad ∷ (purges "ah" tbl d.retention_ah ++ purges "ad" tbl d.retention_ad)))
  unfolding turn_high
  turn_high-Sends t tbl d =
      if-Sends (double_lt d.next_high t) _ _
        (λ b. (record d { next_high = if b then after_minutes t 720 else d.next_high }, ""))
        (bind-Sends _ (send-Sends _ d.base_ad) (
          bind-Sends _ (purge-Sends _ "ah" tbl d.retention_ah)
            (map-Sends _ (purge-Sends _ "ad" tbl d.retention_ad))))
        (pure-Sends (d, ""))

  turn-Sends :
      (t : Double) (table : String × AggregData)
      → Sends e (turn left_over t table) (rescheduled t table) (due t table)
  unfolding turn
  turn-Sends t (tbl, d) =
      bind-Sends _ (turn_low-Sends t tbl d)
        (bind-Sends _ (turn_med-Sends t tbl _) (map-Sends _ (turn_high-Sends t tbl _)))

-- A server that takes every statement, and query objects that are empty after one: a round over the
-- tables executes exactly the statements that are due, table by table, and nothing else; it gives
-- every part that ran its next time, and changes nothing else of the tables.
pub turns-Sends :
    (left_over : String → Bool → String) (e : Env) (t : Double)
    (tables : List (String × AggregData))
    → Empties left_over
    → TakesAll e
    → Sends e (turns left_over t tables) (map (rescheduled t) tables) (flat_map (due t) tables)
unfolding turns
turns-Sends left_over e t tables empties takes =
    collect-Sends (turn left_over t) (rescheduled t) (due t) tables []
      (turn-Sends left_over empties e takes t)
