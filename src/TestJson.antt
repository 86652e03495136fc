-- ===== src/TestJson.antt =====
-- JSON for tests: samples, which are objects of numbers, and lists of them.
use watched_back.Base.{
  String, Bool, true, false, Option, none, some, List, [], ◌∷◌, pos, str_eq, if◌then◌else◌, map,
  is_some,
}
use watched_back.Double.{Double}
use watched_back.World.{Outcome, returned, threw, std_exception, json_runtime_error}
use watched_back.Json.{Jsoncpp}

pub data TestJson : Type 0 where
  nothing : TestJson
  number : Double → TestJson
  sample : List (String × Double) → TestJson
  samples : List (List (String × Double)) → TestJson

abbrev pub number_at : List (String × Double) → String → Option Double
number_at [] k = none
number_at ((j, d) ∷ m) k = if str_eq j k then some d else number_at m k

abbrev pub or_nothing : Option Double → TestJson
or_nothing none = nothing
or_nothing (some d) = number d

abbrev item : TestJson → String → Outcome TestJson
item (sample m) k = returned (or_nothing (number_at m k))
item _ k = returned nothing

abbrev has : TestJson → String → Outcome Bool
has (sample m) k = returned (is_some (number_at m k))
has _ k = returned false

abbrev is_nothing : TestJson → Bool
is_nothing nothing = true
is_nothing _ = false

abbrev pub zero_double : Double
zero_double = record { units = pos 0 }

abbrev as_number : TestJson → Outcome Double
as_number nothing = returned zero_double
as_number (number d) = returned d
as_number _ = threw (std_exception "Value is not convertible to double.")

abbrev parts : TestJson → List TestJson
parts (samples ms) = map sample ms
parts _ = []

abbrev no_text : {A : Type 0} → TestJson → Outcome A
no_text v = threw (std_exception "Type is not convertible")

abbrev pub test_json : Jsoncpp
test_json = record {
  Value = TestJson;
  null = nothing;
  empty_object = sample [];
  of_string = λ s. nothing;
  of_int = λ i. number (record { units = i });
  of_bool = λ b. nothing;
  parse = λ s.
      if str_eq s "{}" then returned (sample []) else threw (json_runtime_error "Syntax error");
  unparsed = λ old s. nothing;
  print = λ v. "";
  is_member = has;
  at = item;
  set = λ v k x. returned v;
  is_null = is_nothing;
  equals = λ v s. false;
  keys = λ v. [];
  elements = parts;
  as_string = no_text;
  as_c_string = no_text;
  as_bool = no_text;
  as_int = no_text;
  as_uint = no_text;
  as_double = as_number;
  as_float = as_number;
}
