-- ===== src/Alerter/Lua.antt =====
-- `luaAlerter` of src/alerter.cpp: an alerter that is a Lua script. What it asks of the interpreter,
-- selene's `sel::State`, is a list of calls; the mutex around each is left out.
use watched_back.Base.{
  ℕ, String, Bool, true, false, List, [], ◌∷◌, joined, to_string, if◌then◌else◌,
}

pub record LuaAlerter : Type 0 where
  pub have_state : Bool

-- `state.Load(file)`, `state(text)` and `state["sendAlert"](…)`.
pub data LuaCall : Type 0 where
  loads_file : String → LuaCall
  runs_text : String → LuaCall
  sends_alert : ℕ → String → String → String → LuaCall

-- The levels of `alerter`, under their names.
abbrev pub level_names : String
level_names = joined (
    "ok="
    ∷ to_string 0
    ∷ ";notice="
    ∷ to_string 2
    ∷ ";info="
    ∷ to_string 1
    ∷ ";warning="
    ∷ to_string 3
    ∷ ";error="
    ∷ to_string 4
    ∷ ";critical="
    ∷ to_string 5
    ∷ [])

-- `luaAlerter::luaAlerter`
abbrev pub open_script : String → LuaAlerter × List LuaCall
open_script file = (record { have_state = true }, loads_file file ∷ runs_text level_names ∷ [])

-- `luaAlerter::~luaAlerter`
abbrev pub close_script : LuaAlerter → LuaAlerter
close_script a = record a { have_state = false }

-- `luaAlerter::sendAlert`
abbrev pub send_alert : LuaAlerter → ℕ → String → String → String → List LuaCall
send_alert a level dest title message =
    if a.have_state then sends_alert level dest title message ∷ [] else []
