-- ===== src/World.antt =====
-- What the backend's code works with: the mysql++ queries that it builds, the answers of the
-- libraries and of the system, the trace of its effects, and exceptions.
use Prim.Native.Char.{Char}
use watched_back.Base.{ℕ, ℤ, String, Bool, Option, List, ◌∷◌}
use watched_back.Double.{Double}

-- A value that a query's `template_defaults` take.
pub data Param : Type 0 where
  text : String → Param
  uint : ℕ → Param
  int : ℤ → Param
  double : Double → Param
  -- A `double` narrowed to `float` by `asFloat`.
  float : Double → Param
  char : Char → Param

pub record Query : Type 0 where
  pub template : String
  pub defaults : List (String × Param)

abbrev pub query : String → List (String × Param) → Query
query t ds = record { template = t; defaults = ds }

-- `std_exception` is any other class derived from `std::exception`, with its `what()`.
pub data Exception : Type 0 where
  bad_query : String → Exception
  json_runtime_error : String → Exception
  std_exception : String → Exception

abbrev pub what : Exception → String
what (bad_query s) = s
what (json_runtime_error s) = s
what (std_exception s) = s

-- `undefined` is behaviour that C++ leaves undefined, such as `*v.begin()` of an empty vector.
pub data Outcome (A : Type 0) : Type 0 where
  returned : A → Outcome A
  threw : Exception → Outcome A
  undefined : Outcome A

-- The fields of a result's row, as texts.
abbrev pub Row : Type 0
Row = List String

-- What an operation does to its surroundings. The arguments of `logged` are those of
-- `log::write`, those of `alerted` an alerter's name and what its `sendAlert` is given. `grabbed`
-- and `released` name the object and the connection.
pub data Event : Type 0 where
  grabbed : ℕ → ℕ → Event
  released : ℕ → ℕ → Event
  stored : Query → Event
  executed : Query → Event
  logged : ℕ → String → String → Event
  requested : String → String → Event
  alerted : String → ℕ → String → String → String → Event

-- The newest event first.
abbrev pub Trace : Type 0
Trace = List Event

-- What answers the program: the pool's `safe_grab` (`none` is `NULL`) and the queries of mysql++,
-- its conversions, HTTP requests and the clock. Each answer may depend on all that happened before.
pub record Env : Type 0 where
  pub safe_grab : Trace → Outcome (Option ℕ)
  -- `none` is a result that tests as false.
  pub store : Trace → Query → Outcome (Option (List Row))
  pub exec : Trace → Query → Outcome Bool
  pub insert_id : Trace → Query → ℕ
  pub query_error : Trace → Query → String
  pub query_str : Query → String
  -- `row[i]`, and the conversions of a field to `int`, `uint32_t`, `double`: each throws on a missing field or on text of another form.
  pub column : Row → ℕ → Outcome String
  pub to_int : String → Outcome ℤ
  pub to_uint : String → Outcome ℕ
  pub to_double : String → Outcome Double
  pub request : Trace → String → String → Outcome String
  pub now : Trace → Double

-- `conn` is each object's field `db`, by the object's address: `none` is `NULL`.
pub record World : Type 0 where
  pub trace : Trace
  pub conn : ℕ → Option ℕ

abbrev pub add_event : World → Event → World
add_event w v = record w { trace = v ∷ w.trace }
