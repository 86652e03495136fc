-- ===== src/AgentClient/Paths.antt =====
-- The paths of an agent's API, in `agentClient::createRessources` of src/agentClient.cpp.
use watched_back.Base.{
  ℕ, zero, suc, ◌+◌, String, Bool, Option, none, some, str_eq, if◌then◌else◌, substr, find, rfind,
  drop_text,
}
use watched_back.World.{Outcome, returned, threw, undefined, std_exception}

-- `std::out_of_range`
abbrev pub or_throw : {A : Type 0} → Option A → Outcome A
or_throw none = threw (std_exception "basic_string::substr")
or_throw (some a) = returned a

abbrev pub then_read : {A B : Type 0} → Outcome A → (A → Outcome B) → Outcome B
then_read (returned a) f = f a
then_read (threw x) f = threw x
then_read undefined f = undefined

-- The second argument of `substr(1, s.rfind("/")-1)`. `npos - 1` is past every end, and so is
-- `0 - 1`, which is `npos`.
abbrev pub count_before : Option ℕ → Option ℕ
count_before none = none
count_before (some zero) = none
count_before (some (suc n)) = some n

-- `find("/") + 10`: `npos + 10` is 9.
abbrev pub position_after : Option ℕ → ℕ
position_after none = 9
position_after (some n) = n + 10

-- The name of a service's ressource, in what precedes the last slash of its path.
abbrev pub service_name : String → Outcome String
service_name res =
    then_read (or_throw (substr res 9 none))
      λ tail. or_throw (substr res (position_after (find b'/' tail)) none)

abbrev pub named : String → Outcome (String × String)
named res = then_read (or_throw (substr res 0 (some 7))) λ start.
    (if str_eq start "system/"
      then (then_read (or_throw (substr res 7 none)) λ name. returned ("host", name))
      else then_read (service_name res) λ name. returned ("service", name))

-- The origin and the name of the ressource that a path is about.
abbrev pub ressource_of : String → Outcome (String × String)
ressource_of key = then_read (or_throw (substr key 1 (count_before (rfind b'/' key)))) named

-- `s.substr(s.rfind("/") + 1)`
abbrev pub after_slash : String → String
after_slash s = elim (rfind b'/' s) [ none ↦ s | some n ↦ drop_text (suc n) s ]

abbrev pub is_history : String → Bool
is_history key = str_eq (after_slash key) "history"
