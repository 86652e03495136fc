-- ===== src/StatAggregator.antt =====
-- `statAggregator` of src/statAggregator.cpp: the minute, hour and day tables of each data type.
pub mod Texts
pub mod Columns
pub mod Loading
pub mod Turn
pub mod Thread
pub mod Due
pub mod Known
pub mod Build
pub mod Steady
mod Tests
use watched_back.Base.{ℕ, String, Bool, false, List, [], pos}
use watched_back.Double.{Double}

-- `aggreg_data` of include/backend.h. The times count milliseconds.
pub record AggregData : Type 0 where
  pub delay_am : ℕ
  pub delay_ah : ℕ
  pub delay_ad : ℕ
  pub retention_d : ℕ
  pub retention_am : ℕ
  pub retention_ah : ℕ
  pub retention_ad : ℕ
  pub base_am : String
  pub base_ah : String
  pub base_ad : String
  pub next_low : Double
  pub next_med : Double
  pub next_high : Double

-- What `std::make_shared<aggreg_data>()` starts with.
abbrev pub new_data : AggregData
new_data = record {
  delay_am = 0;
  delay_ah = 0;
  delay_ad = 0;
  retention_d = 0;
  retention_am = 0;
  retention_ah = 0;
  retention_ad = 0;
  base_am = "";
  base_ah = "";
  base_ad = "";
  next_low = record { units = pos 0 };
  next_med = record { units = pos 0 };
  next_high = record { units = pos 0 };
}

-- The fields; `address` is that of the object, whose connection `World.conn` has.
pub record StatAggregator : Type 0 where
  pub address : ℕ
  pub tables : List (String × AggregData)
  pub thread_freq : ℕ
  pub active : Bool

-- `statAggregator::statAggregator` and `statAggregator::init`, which follows it: until then
-- `thread_freq` has no value.
unfoldable pub ready : ℕ → StatAggregator
ready this = record { address = this; tables = []; thread_freq = 3600; active = false }
