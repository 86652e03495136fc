-- ===== src/Ressource/Parse.antt =====
-- `ressourceClient::parse` of src/ressourceClient.cpp.
use Prim.Native.Char.{code}
use watched_back.Base.{
  ℕ, String, ◌<>◌, Bool, false, not, ◌||◌, Option, none, some, ◌++◌, List, [], ◌∷◌, ltb, ◌==◌,
  if◌then◌else◌, to_string,
}
use watched_back.Double.{Double, double_lt, double_eq, double_le}
use watched_back.World.{Query, Param, query, uint, text, float, char, double, undefined}
use watched_back.Monad.{M, pure, lift, ◌>>=◌, ◌>>◌, cases, fold_m, insert_id, my_exec}
use watched_back.Json.{Jsoncpp}
use watched_back.Alerter.{ResEvent, send_serv_ressource, send_host_ressource}
use watched_back.Ressource.{Ressource, State, id_name, typed, find_event, put_event}

-- The manager that is told of new events: its address, and the alerters that it knows.
pub record Manager : Type 0 where
  pub address : ℕ
  pub known : List String

-- The `switch` of the first loop, on the rule's operator and the value of the sample.
abbrev pub triggers : ResEvent → Double → Bool
triggers e d =
    if code e.oper == b'<'
    then double_lt d e.value
    else if code e.oper == b'>'
    then double_lt e.value d
    else if code e.oper == b'='
    then double_eq d e.value
    else false

-- The `switch` of the second loop: the event is over.
abbrev pub is_over : ResEvent → Double → Bool
is_over e d =
    if code e.oper == b'<'
    then double_le e.value d
    else if code e.oper == b'>'
    then double_le d e.value
    else if code e.oper == b'='
    then not (double_eq d e.value)
    else false

abbrev pub has_test : ResEvent → Bool
has_test e = (code e.oper == b'<') || (code e.oper == b'>') || (code e.oper == b'=')

abbrev pub update_event : Ressource → ℕ → Double → Query
update_event r id current =
    query ("update " <> (typed r <> "res_events set current_value=%0:cv where id=%1:id"))
      (("cv", float current) ∷ ("id", uint id) ∷ [])

abbrev pub insert_event : Ressource → ResEvent → Double → Double → Query
insert_event r e ts current =
    query
      ("insert into "
        <> (typed r
            <> "res_events (%0:name, res_id, start_time, event_type, property, current_value, oper, value) values (%1:id, %2:rid, %3:ts, %4:type, %5q:prop, %6:cv, %7q:op, %8:val)"))
      (("name", text (id_name r))
        ∷ ("id", uint r.host_id)
        ∷ ("rid", uint r.res_id)
        ∷ ("ts", float ts)
        ∷ ("type", uint e.event_type)
        ∷ ("prop", text e.property)
        ∷ ("cv", float current)
        ∷ ("op", char e.oper)
        ∷ ("val", double e.value)
        ∷ [])

-- The query that is to end an event. It gives its time the name `name`.
abbrev pub close_event : Ressource → ℕ → Double → Query
close_event r id ts =
    query ("update " <> (typed r <> "res_events set end_time=%0:end where id=%1:id"))
      (("name", float ts) ∷ ("id", uint id) ∷ [])

abbrev pub event_failed : Ressource → String
event_failed r =
    "Update an event for "
    <> (r.table <> (" (" <> (to_string r.host_id <> ("," <> (to_string r.res_id <> ")")))))

module _ (J : Jsoncpp) (r : Ressource) (alert : Manager) (line : J.Value) where
  -- The value that the sample has for a property: `none` if it has none, or null.
  unfoldable pub sample_of : String → M (Option J.Value)
  sample_of property = do
    member ← lift (J.is_member line property)
    if member
        then (do v ← lift (J.at line property); pure (if J.is_null v then none else some v))
        else pure none

  -- A test of a `switch`; an operator that is none of the three reads no value.
  unfoldable pub test_value : (ResEvent → Double → Bool) → ResEvent → J.Value → M Bool
  test_value test e v =
      if has_test e then (do d ← lift (J.as_double v); pure (test e d)) else pure false

  unfoldable pub tell_of : ResEvent → Double → M (Unit {0})
  tell_of e current =
      if r.is_service
      then send_serv_ressource alert.address alert.known r.host_id r.res_id e current
      else send_host_ressource alert.address alert.known r.host_id r.res_id e current

  -- A rule whose test holds: an open event is brought up to date, a new one is opened and told.
  unfoldable pub fire : State → ResEvent → J.Value → M State
  fire s e v = do
    let found = find_event e 0 s.current_events
    if ltb 0 found
        then (do
          current ← lift (J.as_float v)
          my_exec (update_event r found current) "ressourceClient::collect" (event_failed r)
          pure s)
        else (do
          time ← lift (J.at line "timestamp")
          ts ← lift (J.as_float time)
          current ← lift (J.as_float v)
          my_exec (insert_event r e ts current) "ressourceClient::collect" (event_failed r)
          id ← insert_id (insert_event r e ts current)
          value ← lift (J.as_double v)
          tell_of e value
          pure (record s { current_events = put_event id e s.current_events }))

  unfoldable pub check_rule : State → ResEvent → M State
  check_rule s e = do
    sample ← sample_of e.property
    cases sample (pure s)
        (λ v. do trig ← test_value triggers e v; if trig then fire s e v else pure s)

  -- One round of the loop over the open events. `erase` ends the life of the loop's iterator, and
  -- `i++` on it has undefined behaviour.
  unfoldable pub check_open : ℕ × ResEvent → M (Unit {0})
  check_open (id, e) = do
    sample ← sample_of e.property
    cases sample (pure tt) (λ v. do
      trig ← test_value is_over e v
      if trig
          then (do
            time ← lift (J.at line "timestamp")
            ts ← lift (J.as_float time)
            my_exec (close_event r id ts) "ressourceClient::collect" (event_failed r)
            lift undefined)
          else pure tt)

  unfoldable pub sample_value : List (String × Param) → String → M (List (String × Param))
  sample_value values k = do
    v ← lift (J.at line k)
    f ← lift (J.as_float v)
    pure (values ++ ((k, float f) ∷ []))

  -- One sample.
  unfoldable pub parse_line : State → M State
  parse_line s = do
    s' ← fold_m s.event_factory s check_rule
    fold_m s'.current_events tt λ _ open_event. check_open open_event
    values ← fold_m s'.def_keys [] sample_value
    my_exec (query s'.base_insert values) "ressourceClient::collect" (
        "Insert a value in "
        <> (r.table
            <> (" ("
                <> (to_string r.host_id
                    <> ("," <> (to_string r.res_id <> ("): " <> s'.base_insert)))))))
    pure s'

-- `ressourceClient::parse`
unfoldable pub parse : (J : Jsoncpp) → Ressource → Manager → J.Value → State → M State
parse J r alert samples s = fold_m (J.elements samples) s λ s' line. parse_line J r alert line s'
