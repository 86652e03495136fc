-- ===== src/Json.antt =====
-- JSON documents. jsoncpp is not part of the repository: its values and the operations that the
-- backend calls are a parameter. An operation that may throw has an `Outcome`.
pub mod Read
use watched_back.Base.{ℕ, ℤ, String, Bool, List}
use watched_back.Double.{Double}
use watched_back.World.{Outcome}

pub record Jsoncpp : Type 1 where
  pub Value : Type 0
  pub null : Value
  -- `Json::Value(Json::objectValue)`
  pub empty_object : Value
  pub of_string : String → Value
  pub of_int : ℤ → Value
  pub of_bool : Bool → Value
  -- `operator>>`
  pub parse : String → Outcome Value
  -- `operator<<`
  pub print : Value → String
  -- What an `operator>>` that throws leaves in the value that it was to fill.
  pub unparsed : Value → String → Value
  pub is_member : Value → String → Outcome Bool
  -- `v[key]` as it is read: null where `v` is null or has no such member.
  pub at : Value → String → Outcome Value
  -- `v[key] = x`
  pub set : Value → String → Value → Outcome Value
  pub is_null : Value → Bool
  -- `v == s`
  pub equals : Value → String → Bool
  -- The keys and values in the order of iteration, and the values of `for (… : v)`.
  pub keys : Value → List String
  pub elements : Value → List Value
  pub as_string : Value → Outcome String
  -- Throws for null, which `asString` reads as "".
  pub as_c_string : Value → Outcome String
  pub as_bool : Value → Outcome Bool
  pub as_int : Value → Outcome ℤ
  pub as_uint : Value → Outcome ℕ
  pub as_double : Value → Outcome Double
  pub as_float : Value → Outcome Double
