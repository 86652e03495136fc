-- ===== src/Ressource.antt =====
-- src/ressourceClient.cpp: one metric of one agent. `updateDefs` prepares the insert, `init` loads
-- the events that are open and the rules that make them, and `parse` stores each sample, opening
-- and closing events. A C++ `std::map` by id is a list in the order of the ids.
pub mod Parse
pub mod Rules
pub mod Samples
pub mod Fires
pub mod Opening
pub mod Ended
pub mod Keeps
mod Tests
use Prim.Native.Char.{Char, code, nul}
use watched_back.Base.{
  ℕ, suc, ◌+◌, String, ◌<>◌, Bool, true, false, not, ◌&&◌, Option, none, some, List, [], ◌∷◌, ◌++◌,
  ltb, ◌==◌, str_eq, if◌then◌else◌, to_string,
}
use watched_back.Double.{Double, double_lt, double_eq, double_le}
use watched_back.World.{Query, query, uint, text, float, char, double, Row, undefined}
use watched_back.Monad.{
  M, pure, lift, store, ◌>>=◌, ◌>>◌, cases, fold_m, column, to_uint, to_double, insert_id, my_catch,
  fold_caught, my_exec,
}
use watched_back.Json.{Jsoncpp}
use watched_back.Alerter.{ResEvent, send_serv_ressource, send_host_ressource}

-- The fields that do not change once the client is made.
pub record Ressource : Type 0 where
  pub is_service : Bool
  pub host_id : ℕ
  pub res_id : ℕ
  pub baseurl : String
  pub table : String
  pub serv_name : String

-- `def` points to the metric's columns: `def_keys` are those that it had at the last `updateDefs`.
pub record State : Type 0 where
  pub def_keys : List String
  pub base_insert : String
  pub event_factory : List ResEvent
  pub current_events : List (ℕ × ResEvent)

abbrev pub id_name : Ressource → String
id_name r = if r.is_service then "serv_id" else "host_id"

abbrev pub typed : Ressource → String
typed r = if r.is_service then "s$" else "h$"

-- `res_event::operator==`
abbrev pub same_event : ResEvent → ResEvent → Bool
same_event a b =
    (a.event_type == b.event_type)
    && str_eq a.property b.property
    && (code a.oper == code b.oper)
    && double_eq a.value b.value

-- The columns of `updateDefs`, in its three loops.
abbrev column_list : List String → String
column_list [] = ""
column_list (k ∷ ks) = ", " <> (k <> column_list ks)

abbrev placeholders : ℕ → List String → String
placeholders n [] = ""
placeholders n (k ∷ ks) = ", %" <> (to_string n <> (":" <> (k <> placeholders (suc n) ks)))

abbrev updates : ℕ → Bool → List String → String
updates n first [] = ""
updates n first (k ∷ ks) =
    let skipped = updates (suc n) first ks in
    let more = updates (suc n) false ks in
    if str_eq k "timestamp"
    then skipped
    else (if first then "" else ", ") <> (k <> ("=%" <> (to_string n <> (":" <> (k <> more)))))

-- `ressourceClient::updateDefs`: the template of the insert.
unfoldable pub base_insert_of : Ressource → List String → String
base_insert_of r ks =
    "insert into d$"
    <> (r.table
        <> ("("
            <> (id_name r
                <> (", res_id"
                    <> (column_list ks
                        <> (") values ("
                            <> (to_string r.host_id
                                <> (", "
                                    <> (to_string r.res_id
                                        <> (placeholders 0 ks
                                            <> (") ON DUPLICATE KEY UPDATE "
                                                <> updates 0 true ks)))))))))))

unfoldable pub update_defs : Ressource → List String → State → State
update_defs r ks s = record s { def_keys = ks; base_insert = base_insert_of r ks }

-- `current_events[id] = e`
abbrev pub put_event : ℕ → ResEvent → List (ℕ × ResEvent) → List (ℕ × ResEvent)
put_event id e [] = (id, e) ∷ []
put_event id e ((j, f) ∷ m) =
    if j == id
    then (id, e) ∷ m
    else if ltb id j
    then (id, e) ∷ (j, f) ∷ m
    else (j, f) ∷ put_event id e m

-- The key of the last event in the map that equals the rule, and 0 if there is none.
abbrev pub find_event : ResEvent → ℕ → List (ℕ × ResEvent) → ℕ
find_event e found [] = found
find_event e found ((id, f) ∷ m) = find_event e (if same_event e f then id else found) m

abbrev pub first_char : String → Char
first_char String.[] = nul
first_char (String.◌∷◌ c s) = c

-- The fields of an event in a row, from the given column on.
unfoldable pub read_event : ℕ → Row → M ResEvent
read_event i row = do
  event_type ← (do s ← column row i; to_uint s)
  property ← column row (i + 1)
  oper ← column row (i + 2)
  value ← (do s ← column row (i + 3); to_double s)
  pure (record {
    event_type = event_type;
    property = property;
    oper = first_char oper;
    value = value;
  })

abbrev pub current_query : Ressource → Query
current_query r =
    query
      ("select id, event_type, property, oper, value from "
        <> (typed r <> "res_events where end_time is null and %0:nid=%1:hid and res_id=%2:rid"))
      (("nid", text (id_name r)) ∷ ("hid", uint r.host_id) ∷ ("rid", uint r.res_id) ∷ [])

abbrev pub factory_query : Ressource → Query
factory_query r =
    query
      ("select event_type, property, oper, value from "
        <> (typed r
            <> "event_factory where (%0:nid=%1:hid or %0:nid is null) and (res_id=%2:rid or res_id is null) and (res_type=%3q:table or res_type is null)"))
      (("nid", text (id_name r))
        ∷ ("hid", uint r.host_id)
        ∷ ("rid", uint r.res_id)
        ∷ ("table", text r.table)
        ∷ [])

-- One row of each of the two queries of `init`.
unfoldable pub load_current : List (ℕ × ResEvent) → Row → M (List (ℕ × ResEvent))
load_current events row = do
  e ← read_event 1 row
  id ← (do s ← column row 0; to_uint s)
  pure (put_event id e events)

unfoldable pub load_factory : List ResEvent → Row → M (List ResEvent)
load_factory rules row = do e ← read_event 0 row; pure (rules ++ e ∷ [])

-- `if (StoreQueryResult r = q.store()) for (…) …` under `myqCatch`.
unfoldable pub load_rows : {S : Type 0} → Query → String → S → (S → Row → M S) → M S
load_rows q msg s body = do
  rows ← my_catch q "ressourceClient::init" msg (store q)
  cases rows (pure s) (λ rs. fold_caught q "ressourceClient::init" msg rs s body)

-- `ressourceClient::init`
unfoldable pub init : Ressource → List String → State → M State
init r ks s = do
  let ready = update_defs r ks s
  current ←
      load_rows (current_query r) ("Failed to get current events for " <> r.table)
        ready.current_events load_current
  rules ←
      load_rows (factory_query r) ("Failed to get event factory for " <> r.table)
        ready.event_factory load_factory
  pure (record ready { current_events = current; event_factory = rules })
