-- ===== src/Ressource/Samples.antt =====
-- What one sample does, over JSON that reads as numbers.
use watched_back.Base.{
  ℕ, ◌≡◌, refl, ◌∙◌, ap, String, Bool, true, false, Option, none, some, List, [], ◌∷◌, ◌++◌, map,
  All, arith, if◌then◌else◌, is_some, append_assoc, append-nil, Option-cases, Bool-cases, inl, inr,
}
use watched_back.Double.{Double}
use watched_back.World.{
  Query, Param, query, float, returned, executed, Env, World, add_event, Trace,
}
use watched_back.Monad.{run, pure, fold_m, cases, my_exec}
use watched_back.Monad.Runs.{bind_run}
use watched_back.Json.{Jsoncpp}
use watched_back.Alerter.{ResEvent}
use watched_back.Ressource.{Ressource, State}
use watched_back.Ressource.Parse.{
  Manager, triggers, is_over, has_test, sample_of, test_value, fire, check_rule, check_open,
  sample_value, parse_line,
}

-- The sample `line` read as numbers: `val` has the properties that it has, and `flt` the numbers
-- that `asFloat` gives.
pub record Reads (J : Jsoncpp) (line : J.Value) (val : String → Option Double)
    (flt : String → Double) : Type 0 where
  pub value : String → J.Value
  pub member : (k : String) → J.is_member line k ≡ returned (is_some (val k))
  pub item : (k : String) → J.at line k ≡ returned (value k)
  pub not_null : (k : String) (d : Double) → val k ≡ some d → J.is_null (value k) ≡ false
  pub as_double : (k : String) (d : Double) → val k ≡ some d → J.as_double (value k) ≡ returned d
  pub as_float : (k : String) → J.as_float (value k) ≡ returned (flt k)

-- The server takes every statement.
pub record TakesAll (e : Env) : Type 0 where
  pub takes : (t : Trace) (q : Query) → e.exec t q ≡ returned true

pub my_exec_taken :
    (e : Env) (q : Query) (from msg : String) (w : World)
    → TakesAll e
    → run (my_exec q from msg) e w ≡ (returned tt, add_event w (executed q))
unfolding run
my_exec_taken e q from msg w t = ground (arith, t.takes w.trace q)

-- A rule does not fire at the sample; an open event is not over.
abbrev pub IsQuiet : (String → Option Double) → ResEvent → Type 0
IsQuiet val e = (d : Double) → val e.property ≡ some d → triggers e d ≡ false

abbrev pub StaysOpen : (String → Option Double) → ℕ × ResEvent → Type 0
StaysOpen val (id, e) = (d : Double) → val e.property ≡ some d → is_over e d ≡ false

module _ (J : Jsoncpp) (r : Ressource) (alert : Manager) (line : J.Value)
    {val : String → Option Double} {flt : String → Double} (reads : Reads J line val flt)
    (e : Env) where
  sample_absent :
      (k : String) (w : World)
      → val k ≡ none
      → run (sample_of J r alert line k) e w ≡ (returned none, w)
  unfolding run sample_of
  sample_absent k w h = ground (arith, reads.member k)

  sample_present :
      (k : String) (w : World) (d : Double)
      → val k ≡ some d
      → run (sample_of J r alert line k) e w ≡ (returned (some (reads.value k)), w)
  unfolding run sample_of
  sample_present k w d h = ground (arith, reads.member k, reads.item k, reads.not_null k d h)

  test_run :
      (test : ResEvent → Double → Bool) (rule : ResEvent) (v : J.Value) (d : Double) (w : World)
      → J.as_double v ≡ returned d
      → (has_test rule ≡ false → test rule d ≡ false)
      → run (test_value J r alert line test rule v) e w ≡ (returned (test rule d), w)
  unfolding run test_value
  test_run test rule v d w h n = elim (Bool-cases (has_test rule)) [
    | inl y ↦ rw y (ground arith)
    | inr other ↦ rw (other, n other)
  ]

  check_rule_absent :
      (s : State) (rule : ResEvent) (w : World)
      → val rule.property ≡ none
      → run (check_rule J r alert line s rule) e w ≡ (returned s, w)
  unfolding run check_rule
  check_rule_absent s rule w h =
      bind_run (sample_of J r alert line rule.property) _ e w w none
        (sample_absent rule.property w h)

  pub check_rule_tested :
      (s : State) (rule : ResEvent) (w : World) (d : Double)
      → val rule.property ≡ some d
      → run (check_rule J r alert line s rule) e w
        ≡ run
            (if triggers rule d
              then fire J r alert line s rule (reads.value rule.property)
              else pure s)
            e
            w
  unfolding check_rule cases
  check_rule_tested s rule w d h =
      bind_run (sample_of J r alert line rule.property) _ e w w _
        (sample_present rule.property w d h)
      ∙ bind_run (test_value J r alert line triggers rule (reads.value rule.property)) _ e w w _
          (test_run triggers rule _ d w (reads.as_double rule.property d h) (λ n. ground arith))

  check_rule_quiet :
      (s : State) (rule : ResEvent) (w : World)
      → IsQuiet val rule
      → run (check_rule J r alert line s rule) e w ≡ (returned s, w)
  check_rule_quiet s rule w q = elim (Option-cases (val rule.property)) [
    | inl h ↦ check_rule_absent s rule w h
    | inr (d, h) ↦ check_rule_tested s rule w d h ∙ still (q d h)
  ]
    where
      still :
          {b : Bool}
          → b ≡ false
          → run (if b then fire J r alert line s rule (reads.value rule.property) else pure s) e w
            ≡ (returned s, w)
      still h = rw h (unfold run in refl)

  check_open_stays :
      (id : ℕ) (ev : ResEvent) (w : World)
      → StaysOpen val (id, ev)
      → run (check_open J r alert line (id, ev)) e w ≡ (returned tt, w)
  unfolding check_open cases
  check_open_stays id ev w q = elim (Option-cases (val ev.property)) [
    | inl h ↦
        bind_run (sample_of J r alert line ev.property) _ e w w none (sample_absent ev.property w h)
        ∙ unfold run in refl
    | inr (d, h) ↦
        bind_run (sample_of J r alert line ev.property) _ e w w _ (sample_present ev.property w d h)
        ∙ bind_run (test_value J r alert line is_over ev (reads.value ev.property)) _ e w w _
            (test_run is_over ev _ d w (reads.as_double ev.property d h) (λ n. ground arith))
        ∙ unfold run in ground (arith, q d h)
  ]

  rules_quiet :
      (rules : List ResEvent) (s : State) (w : World)
      → All (IsQuiet val) rules
      → run (fold_m rules s (check_rule J r alert line)) e w ≡ (returned s, w)
  unfolding fold_m
  rules_quiet [] s w q = unfold run in refl
  rules_quiet (rule ∷ rules) s w (q, qs) =
      bind_run (check_rule J r alert line s rule) _ e w w s (check_rule_quiet s rule w q)
      ∙ rules_quiet rules s w qs

  events_stay :
      (events : List (ℕ × ResEvent)) (w : World)
      → All (StaysOpen val) events
      → run (fold_m events tt λ _ ev. check_open J r alert line ev) e w ≡ (returned tt, w)
  unfolding fold_m
  events_stay [] w q = unfold run in refl
  events_stay ((id, ev) ∷ events) w (q, qs) =
      bind_run (check_open J r alert line (id, ev)) _ e w w tt (check_open_stays id ev w q)
      ∙ events_stay events w qs

  run-sample_value :
      (values : List (String × Param)) (k : String) (w : World)
      → run (sample_value J r alert line values k) e w
        ≡ (returned (values ++ ((k, float (flt k)) ∷ [])), w)
  unfolding run sample_value
  run-sample_value values k w = ground (arith, reads.item k, reads.as_float k)

  values_run :
      (ks : List String) (values : List (String × Param)) (w : World)
      → run (fold_m ks values (sample_value J r alert line)) e w
        ≡ (returned (values ++ map (λ k. (k, float (flt k))) ks), w)
  unfolding fold_m
  values_run [] values w = rw append-nil (unfold run in refl)
  values_run (k ∷ ks) values w =
      bind_run (sample_value J r alert line values k) _ e w w _ (run-sample_value values k w)
      ∙ values_run ks _ w
      ∙ ap (λ vs. (returned vs, w)) (append_assoc values ((k, float (flt k)) ∷ []) _)

-- The insert of one sample: the prepared template, with each column's number as a `float`.
abbrev pub sample_insert : State → (String → Double) → Query
sample_insert s flt = query s.base_insert (map (λ k. (k, float (flt k))) s.def_keys)

-- A sample at which no rule fires and no open event is over: if the server takes every statement,
-- `parse` of that sample returns, sends exactly one statement, the insert with the sample's
-- numbers, and leaves the client's state as it was.
pub parse_line_quiet :
    (J : Jsoncpp) (r : Ressource) (alert : Manager) (line : J.Value) {val : String → Option Double}
    {flt : String → Double} (e : Env) (s : State) (w : World)
    → Reads J line val flt
    → TakesAll e
    → All (IsQuiet val) s.event_factory
    → All (StaysOpen val) s.current_events
    → run (parse_line J r alert line s) e w
      ≡ (returned s, add_event w (executed (sample_insert s flt)))
unfolding parse_line
parse_line_quiet J r alert line {flt} e s w reads t q o =
    bind_run (fold_m s.event_factory s (check_rule J r alert line)) _ e w w s
      (rules_quiet J r alert line reads e s.event_factory s w q)
    ∙ bind_run (fold_m s.current_events tt λ _ ev. check_open J r alert line ev) _ e w w tt
        (events_stay J r alert line reads e s.current_events w o)
    ∙ bind_run (fold_m s.def_keys [] (sample_value J r alert line)) _ e w w _
        (values_run J r alert line reads e s.def_keys [] w)
    ∙ bind_run (my_exec (sample_insert s flt) _ _) _ e w _ tt
        (my_exec_taken e (sample_insert s flt) _ _ w t)
    ∙ unfold run in refl
