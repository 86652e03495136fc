-- ===== src/StatAggregator/Tests.antt =====
-- A data type whose minutes and days are due, over a server that takes every statement.
use watched_back.Base.{
  ◌≡◌, refl, String, Bool, true, some, [], ◌∷◌, map, flat_map, lookup, ℕ, zero, suc, if◌then◌else◌,
  List, str_eq, Option,
}
use watched_back.Double.{Double, of_ℕ}
use watched_back.World.{
  Query, stored, add_event, Row, Outcome, returned, threw, std_exception, Env, World,
}
use watched_back.Monad.{run}
use watched_back.Monad.Sends.{Sends, after}
use watched_back.Monad.Gives.{Gives}
use watched_back.Monad.Returns.{Returns}
use watched_back.Monad.Settles.{Defined, well, badly}
use watched_back.TestEnv.{hosts_env}
use watched_back.StatAggregator.{AggregData, new_data, StatAggregator}
use watched_back.StatAggregator.Texts.{columns_text, purge_text}
use watched_back.StatAggregator.Turn.{turns}
use watched_back.StatAggregator.Due.{due, rescheduled, turns-Sends}
use watched_back.StatAggregator.Loading.{build, load}
use watched_back.StatAggregator.Columns.{shape_of, columns_query}
use watched_back.StatAggregator.Build.{nothing_there, creations, inserts, build-creates}
use watched_back.StatAggregator.Known.{Kept, load-Kept}
use watched_back.StatAggregator.Steady.{load-Returns}

abbrev at : Double
at = of_ℕ 1_000

abbrev cpu : AggregData
cpu = record new_data {
  delay_am = 5;
  delay_ad = 2;
  retention_d = 7;
  retention_ad = 365;
  base_am = "insert minutes";
  base_ah = "insert hours";
  base_ad = "insert days";
  next_med = of_ℕ 1_000;
}

-- A query object keeps the text of a statement that was not accepted.
abbrev held_text : String → Bool → String
held_text s accepted = if accepted then "" else s

-- The hours are not due yet; only data and days have a retention.
due_now :
    due at ("cpu", cpu)
    ≡ "insert minutes" ∷ purge_text "d" "cpu" 7 ∷ "insert days" ∷ purge_text "ad" "cpu" 365 ∷ []
unfolding of_ℕ
due_now = refl

turns-Sends_example :
    Sends hosts_env
      (turns held_text at (("cpu", cpu) ∷ []))
      (map (rescheduled at) (("cpu", cpu) ∷ []))
      (flat_map (due at) (("cpu", cpu) ∷ []))
turns-Sends_example =
    turns-Sends held_text hosts_env at (("cpu", cpu) ∷ []) (record { accepted = λ s. refl })
      (record { takes = λ t q. refl })

abbrev aggregator : StatAggregator
aggregator = record { address = 2; tables = ("cpu", cpu) ∷ []; thread_freq = 3_600; active = true }

abbrev cell : Row → ℕ → Outcome String
cell [] i = threw (std_exception "no such field")
cell (s ∷ r) zero = returned s
cell (s ∷ r) (suc i) = cell r i

-- The database has the data type with other delays, and a row that lacks most fields.
abbrev configs_env : Env
configs_env = record hosts_env {
  store = λ t q. returned (
      some (
        ("cpu" ∷ "1" ∷ "11" ∷ "111" ∷ "1" ∷ "1" ∷ "1" ∷ "1" ∷ []) ∷ ("net" ∷ "1" ∷ "1" ∷ []) ∷ []));
  column = cell;
}

abbrev start : World
start = record { trace = []; conn = λ p. some 7 }

reloaded :
    (run (load aggregator) configs_env start).0
    ≡ returned (record aggregator {
      tables =
          (
            "cpu",
            record cpu {
              delay_am = 1;
              delay_ah = 2;
              delay_ad = 3;
              retention_d = 1;
              retention_am = 1;
              retention_ah = 1;
              retention_ad = 1;
            },
          )
          ∷ [];
    })
unfolding run load watched_back.StatAggregator.Loading.load_row
    watched_back.StatAggregator.Loading.load_data watched_back.StatAggregator.Loading.read_fields
    watched_back.StatAggregator.Loading.read_field
reloaded = refl

load-Kept_example : Gives configs_env (Kept aggregator) (load aggregator)
load-Kept_example = load-Kept configs_env aggregator

-- A database with the data of two columns, and no aggregate of them.
abbrev net_columns : List Row
net_columns = ("rx" ∷ []) ∷ ("tx" ∷ []) ∷ []

abbrev name_of : Row → String
name_of [] = ""
name_of (s ∷ r) = s

abbrev net_env : Env
net_env = record hosts_env {
  store = λ t q.
      if str_eq q.template (columns_text "net" "host_id")
      then returned (some net_columns)
      else returned (some (("0" ∷ []) ∷ []));
}

abbrev shaped : World
shaped = (run (shape_of 2 "net") net_env start).1

shapes : run (shape_of 2 "net") net_env start ≡ (returned (nothing_there "net" "host_id"), shaped)
unfolding run shape_of watched_back.DbTools.Have.table_has_column
    watched_back.DbTools.Have.have_table watched_back.DbTools.counted
    watched_back.DbTools.with_connection watched_back.DbTools.grab watched_back.DbTools.first_answer
    watched_back.DbTools.is_positive
shapes = refl

abbrev net_query : Query
net_query = columns_query 2 "net" (nothing_there "net" "host_id")

build-creates_example :
    (a : StatAggregator) × (d : AggregData) × (run (build aggregator "net" new_data) net_env start
      ≡ (
        returned (a, true),
        after
            (add_event shaped (stored net_query))
            (creations "net" "host_id" ("rx" ∷ "tx" ∷ []) 0 0 0),
      ))
    × (lookup a.tables "net" ≡ some d)
    × ((d.base_am, d.base_ah, d.base_ad) ≡ inserts "net" "host_id" ("rx" ∷ "tx" ∷ []) 0 0 0)
build-creates_example =
    build-creates aggregator "net" "host_id" new_data net_columns name_of net_env start shaped
      (record { takes = λ t q. refl }) shapes refl (refl, (refl, tt))

-- The data type that is known, with fewer fields than it should have, and an empty row.
abbrev known_rows : Option (List Row)
known_rows = some (("cpu" ∷ "1" ∷ []) ∷ [] ∷ [])

abbrev known_env : Env
known_env = record hosts_env { store = λ t q. returned known_rows; column = cell }

cell-Defined : (r : Row) (i : ℕ) → Defined (cell r i)
cell-Defined [] i = badly _
cell-Defined (s ∷ r) zero = well s tt
cell-Defined (s ∷ r) (suc i) = cell-Defined r i

load-Returns_example : Returns known_env (Kept aggregator) (load aggregator)
load-Returns_example =
    load-Returns known_env aggregator (record { cells = cell-Defined; numbers = λ s. well _ tt })
      (λ t. well known_rows (well "cpu" (cpu, refl), (badly _, tt)))
