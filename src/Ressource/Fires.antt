-- ===== src/Ressource/Fires.antt =====
-- What a rule does at a sample that breaks it.
use watched_back.Base.{
  ℕ, List, [], ◌∷◌, All, ◌<◌, ℤ, pos, negsuc, eq_ℤ, eq_refl, ==_iff, ap, sym, subst, ◌≡◌, refl, ◌∙◌,
  String, true, false, Option, some, arith, if◌then◌else◌, ltb,
}
use watched_back.Double.{Double}
use watched_back.World.{Query, Outcome, returned, executed, Env, World, add_event}
use watched_back.Monad.{M, run, pure, ◌>>◌, my_exec, insert_id}
use watched_back.Monad.Runs.{bind-returned, bind_run, lift-bind, run-pure}
use watched_back.Json.{Jsoncpp}
use watched_back.Alerter.{ResEvent}
use watched_back.Ressource.{Ressource, State, same_event, find_event, put_event}
use watched_back.Ressource.Rules.{Distinct, find_event-eq-zero}
use Prim.Native.Char.{code}
use watched_back.Ressource.Parse.{
  Manager, triggers, update_event, insert_event, tell_of, fire, check_rule,
}
use watched_back.Ressource.Samples.{Reads, TakesAll, my_exec_taken, check_rule_tested}

-- A rule that fires at the sample while its event is open: one update of the event with the new
-- value, and no alert, no insert, no change of the state.
check_rule_known :
    (J : Jsoncpp) (r : Ressource) (alert : Manager) (line : J.Value) {val : String → Option Double}
    {flt : String → Double} (e : Env) (s : State) (rule : ResEvent) (d : Double) (w : World)
    → Reads J line val flt
    → TakesAll e
    → val rule.property ≡ some d
    → triggers rule d ≡ true
    → 0 < find_event rule 0 s.current_events
    → run (check_rule J r alert line s rule) e w ≡ (
      returned s,
      add_event w
          (executed (update_event r (find_event rule 0 s.current_events) (flt rule.property))),
    )
unfolding fire
check_rule_known J r alert line {flt} e s rule d w reads t h trig old =
    check_rule_tested J r alert line reads e s rule w d h ∙ fires trig (ground arith)
  where
    q : Query
    q = update_event r (find_event rule 0 s.current_events) (flt rule.property)

    fires :
        triggers rule d ≡ true
        → ltb 0 (find_event rule 0 s.current_events) ≡ true
        → run
            (if triggers rule d
              then fire J r alert line s rule (reads.value rule.property)
              else pure s)
            e
            w
          ≡ (returned s, add_event w (executed q))
    fires y z =
        rw (y, z)
          (lift-bind (J.as_float (reads.value rule.property)) _ e w (flt rule.property)
              (reads.as_float rule.property)
            ∙ bind_run (my_exec q _ _) _ e w _ tt (my_exec_taken e q _ _ w t)
            ∙ run-pure s e _)

-- A rule that fires at the sample with no open event of its own: the event is inserted with the
-- sample's time and value, the manager is told of it, and the client then holds the event under
-- the number that the server gave the row. (If the manager's own lookups fail, so does the run.)
check_rule_new :
    (J : Jsoncpp) (r : Ressource) (alert : Manager) (line : J.Value) {val : String → Option Double}
    {flt : String → Double} (e : Env) (s : State) (rule : ResEvent) (d : Double) (w : World)
    → Reads J line val flt
    → TakesAll e
    → val rule.property ≡ some d
    → triggers rule d ≡ true
    → find_event rule 0 s.current_events ≡ 0
    → let q = insert_event r rule (flt "timestamp") (flt rule.property) in
      let w' = add_event w (executed q) in
      run (check_rule J r alert line s rule) e w
      ≡ run
          (tell_of J r alert line rule d
            >> pure (record s {
              current_events = put_event (e.insert_id w'.trace q) rule s.current_events;
            }))
          e
          w'
unfolding fire
check_rule_new J r alert line {flt} e s rule d w reads t h trig none_open =
    check_rule_tested J r alert line reads e s rule w d h ∙ fires trig (ground arith)
  where
    q : Query
    q = insert_event r rule (flt "timestamp") (flt rule.property)

    w' : World
    w' = add_event w (executed q)

    told : M State
    told =
        tell_of J r alert line rule d
        >> pure
            (record s { current_events = put_event (e.insert_id w'.trace q) rule s.current_events })

    fires :
        triggers rule d ≡ true
        → ltb 0 (find_event rule 0 s.current_events) ≡ false
        → run
            (if triggers rule d
              then fire J r alert line s rule (reads.value rule.property)
              else pure s)
            e
            w
          ≡ run told e w'
    fires y z =
        rw (y, z)
          (lift-bind (J.at line "timestamp") _ e w (reads.value "timestamp")
              (reads.item "timestamp")
            ∙ lift-bind (J.as_float (reads.value "timestamp")) _ e w _ (reads.as_float "timestamp")
            ∙ lift-bind (J.as_float (reads.value rule.property)) _ e w _
                (reads.as_float rule.property)
            ∙ bind_run (my_exec q _ _) _ e w w' tt (my_exec_taken e q _ _ w t)
            ∙ bind_run (insert_id q) _ e w' w' (e.insert_id w'.trace q) (unfold run in refl)
            ∙ lift-bind (J.as_double (reads.value rule.property)) _ e w' d
                (reads.as_double rule.property d h))

find_event-differs :
    (e : ResEvent) (found : ℕ) (m : List (ℕ × ResEvent))
    → All (λ p. same_event e p.1 ≡ false) m
    → find_event e found m ≡ found
find_event-differs e found [] a = refl
find_event-differs e found ((j, f) ∷ m) (p, a) = rw p (find_event-differs e found m a)

-- The event that is put under a number is the one that its rule finds.
find_event-put :
    (e : ResEvent) (id found : ℕ) (m : List (ℕ × ResEvent))
    → same_event e e ≡ true
    → All (λ p. same_event e p.1 ≡ false) m
    → find_event e found (put_event id e m) ≡ id
find_event-put e id found [] h a = rw h refl
find_event-put e id found ((j, f) ∷ m) h (p, a) =
    ground (arith, find_event-differs e id m a, find_event-put e id found m h a)

eq_ℤ_refl : (n : ℤ) → eq_ℤ n n ≡ true
eq_ℤ_refl (pos n) = ground (arith, ==_iff n n)
eq_ℤ_refl (negsuc n) = ground (arith, ==_iff n n)

same_event_refl : (e : ResEvent) → same_event e e ≡ true
same_event_refl e = ground (
  arith,
  ==_iff e.event_type e.event_type,
  eq_refl e.property,
  ==_iff (code e.oper) (code e.oper),
  eq_ℤ_refl e.value.units,
)

outcome-injective : {A : Type 0} {a b : A} → ◌≡◌ {A = Outcome A} (returned a) (returned b) → a ≡ b
outcome-injective h = cc

-- What follows an operation is what both return.
then-returned :
    {A : Type 0} (m : M (Unit {0})) (a b : A) (e : Env) (w v : World)
    → run (m >> pure a) e w ≡ (returned b, v)
    → b ≡ a
then-returned m a b e w v h =
    let (u, v', runs, rest) = bind-returned m _ e w b (ap (λ x. x.0) h) in
    outcome-injective (sym rest ∙ ap (λ x. x.0) (run-pure a e v'))

-- A server that takes every statement, and a rule that fires at two samples, the first time with no open
-- event of its own. When the first check has returned, the client holds the event under the number that
-- the server gave to the inserted row, if that is not 0; and the second check sends exactly one
-- statement, the update of that row with the second value: no second insert, and no alert.
pub check_rule_twice :
    (J : Jsoncpp) (r : Ressource) (alert : Manager) (line line' : J.Value)
    {val val' : String → Option Double} {flt flt' : String → Double} (e : Env) (s t : State)
    (rule : ResEvent) (d d' : Double) (w v : World)
    → Reads J line val flt
    → Reads J line' val' flt'
    → TakesAll e
    → val rule.property ≡ some d
    → triggers rule d ≡ true
    → val' rule.property ≡ some d'
    → triggers rule d' ≡ true
    → Distinct s.current_events
    → find_event rule 0 s.current_events ≡ 0
    → let q = insert_event r rule (flt "timestamp") (flt rule.property) in
      let id = e.insert_id (executed q ∷ w.trace) q in
      0 < id
      → run (check_rule J r alert line s rule) e w ≡ (returned t, v)
      → (t ≡ record s { current_events = put_event id rule s.current_events })
        × (run (check_rule J r alert line' t rule) e v
            ≡ (returned t, add_event v (executed (update_event r id (flt' rule.property)))))
check_rule_twice J r alert line line' {flt} {flt'} e s t rule d d' w v reads reads' takes h trig h'
      trig' distinct none_open id_positive first =
    let q = insert_event r rule (flt "timestamp") (flt rule.property) in
    let id = e.insert_id (executed q ∷ w.trace) q in
    let opened : t ≡ record s { current_events = put_event id rule s.current_events } =
      then-returned _ _ t e _ v
        (sym (check_rule_new J r alert line e s rule d w reads takes h trig none_open) ∙ first) in
    let found : find_event rule 0 t.current_events ≡ id =
      ap (λ (x : State). find_event rule 0 x.current_events) opened
      ∙ find_event-put rule id 0 s.current_events (same_event_refl rule)
          (find_event-eq-zero rule s.current_events distinct none_open) in
    (
      opened,
      check_rule_known J r alert line' e t rule d' v reads' takes h' trig'
            (subst (λ n. 0 < n) (sym found) id_positive)
          ∙ ap (λ n. (returned t, add_event v (executed (update_event r n (flt' rule.property)))))
              found,
    )
