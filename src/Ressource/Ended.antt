-- ===== src/Ressource/Ended.antt =====
-- A sample at which an open event is over, in src/ressourceClient.cpp.
use watched_back.Base.{
  clash, ℕ, ◌≡◌, ◌≢◌, refl, sym, subst, ◌⊎◌, ◌∙◌, ap, true, false, none, some, List, [], ◌∷◌, ◌++◌,
  ◌==◌, ==_iff, ltb, if◌then◌else◌, arith, if-holds, inl, inr,
}
use watched_back.Double.{Double}
use watched_back.World.{Query, Trace, Outcome, returned, undefined, Env, World}
use watched_back.Monad.{M, run, insert_id, fold_m}
use watched_back.Monad.Gives.{
  Gives, pure-Gives, bind-Gives, bind_with-Gives, implies-Gives, lift-Gives, if-Gives, cases-Gives,
  fold_m-Gives, cases-some-Gives,
}
use watched_back.Json.{Jsoncpp}
use watched_back.Alerter.{ResEvent}
use watched_back.Ressource.{Ressource, State, put_event, find_event}
use watched_back.Ressource.Parse.{
  Manager, is_over, has_test, sample_of, test_value, fire, check_rule, check_open, parse_line,
  parse,
}

-- The event is open under the number.
abbrev pub OpenAs : ℕ → ResEvent → List (ℕ × ResEvent) → Type 0
OpenAs id e [] = ⊥
OpenAs id e ((j, f) ∷ m) = ((j ≡ id) × (f ≡ e)) ⊎ OpenAs id e m

-- The server gives no new row this number.
pub record Leaves (e : Env) (id : ℕ) : Type 0 where
  pub other : (t : Trace) (q : Query) → e.insert_id t q ≢ id

-- The sample has a number for the event's property, and at this number the event is over.
pub record OverAt (J : Jsoncpp) (line : J.Value) (ev : ResEvent) : Type 0 where
  pub value : J.Value
  pub number : Double
  pub member : J.is_member line ev.property ≡ returned true
  pub item : J.at line ev.property ≡ returned value
  pub not_null : J.is_null value ≡ false
  pub as_double : J.as_double value ≡ returned number
  pub over : is_over ev number ≡ true

put_event-OpenAs :
    (id k : ℕ) (e f : ResEvent) (m : List (ℕ × ResEvent))
    → k ≢ id
    → OpenAs id e m
    → OpenAs id e (put_event k f m)
put_event-OpenAs id k e f [] differs o = inr o
put_event-OpenAs id k e f ((j, g) ∷ m) differs (inl (same, is)) =
    if-holds (OpenAs id e) (j == k) _ _ (λ taken. absurd (differs (ground (arith, ==_iff j k))))
      (λ _. if-holds (OpenAs id e) (ltb k j) _ _ (λ _. inr (inl (same, is))) (λ _. inl (same, is)))
put_event-OpenAs id k e f ((j, g) ∷ m) differs (inr o) =
    if-holds (OpenAs id e) (j == k) _ _ (λ _. inr o)
      (λ _.
        if-holds (OpenAs id e) (ltb k j) _ _ (λ _. inr (inr o))
          (λ _. inr (put_event-OpenAs id k e f m differs o)))

returned-injective : {A : Type 0} {a b : A} → ◌≡◌ {A = Outcome A} (returned a) (returned b) → a ≡ b
returned-injective h = cc

is_over-has_test : (e : ResEvent) (d : Double) → is_over e d ≡ true → has_test e ≡ true
is_over-has_test e d h = ground arith

abbrev StillOpen : ℕ → ResEvent → State → Type 0
StillOpen id ev s = OpenAs id ev s.current_events

-- An operation that never returns.
abbrev Never : {A : Type 0} → Env → M A → Type 0
Never e m = Gives e (λ _. ⊥) m

module _ (J : Jsoncpp) (r : Ressource) (alert : Manager) (line : J.Value) {e : Env} where
  insert_id-Gives : (id : ℕ) (q : Query) → Leaves e id → Gives e (λ k. k ≢ id) (insert_id q)
  unfolding run
  insert_id-Gives id q l = record {
    at = λ w a h same. l.other w.trace q (returned-injective h ∙ same);
  }

  fire-Gives :
      (id : ℕ) (ev : ResEvent) (s : State) (rule : ResEvent) (v : J.Value)
      → Leaves e id
      → StillOpen id ev s
      → Gives e (StillOpen id ev) (fire J r alert line s rule v)
  unfolding fire
  fire-Gives id ev s rule v l o =
      if-Gives (ltb 0 (find_event rule 0 s.current_events)) _ _
        (λ _. bind-Gives _ _ λ current. bind-Gives _ _ λ _. pure-Gives s o)
        (λ _. bind-Gives _ _ λ time. bind-Gives _ _ λ ts. bind-Gives _ _ λ current.
          bind-Gives _ _ λ _. bind_with-Gives _ _ (insert_id-Gives id _ l) λ k differs.
            bind-Gives _ _ λ value.
              bind-Gives _ _
                λ _. pure-Gives _ (put_event-OpenAs id k ev rule s.current_events differs o))

  check_rule-Gives :
      (id : ℕ) (ev : ResEvent) (s : State) (rule : ResEvent)
      → Leaves e id
      → StillOpen id ev s
      → Gives e (StillOpen id ev) (check_rule J r alert line s rule)
  unfolding check_rule
  check_rule-Gives id ev s rule l o = bind-Gives _ _ λ sample.
      cases-Gives sample _ _ (pure-Gives s o) λ v.
        bind-Gives _ _
          λ trig. if-Gives trig _ _ (λ _. fire-Gives id ev s rule v l o) (λ _. pure-Gives s o)

  module _ (ev : ResEvent) (over : OverAt J line ev) where
    sample_of-Gives : Gives e (λ o. o ≡ some over.value) (sample_of J r alert line ev.property)
    unfolding sample_of
    sample_of-Gives = bind_with-Gives _ _ (lift-Gives _) λ member h.
        if-Gives member _ _
          (λ _.
            bind_with-Gives _ _ (lift-Gives _)
              λ v k. pure-Gives _ (is_value v (returned-injective (sym over.item ∙ k))))
          (λ no. clash (sym (returned-injective (sym over.member ∙ h))) no)
      where
        is_value :
            (v : J.Value)
            → over.value ≡ v
            → (if J.is_null v then none else some v) ≡ some over.value
        is_value v same =
            subst (λ u. (if J.is_null u then none else some u) ≡ some over.value) same
              (rw over.not_null refl)

    test_value-Gives : Gives e (λ b. b ≡ true) (test_value J r alert line is_over ev over.value)
    unfolding test_value
    test_value-Gives =
        if-Gives (has_test ev) _ _
          (λ _. bind_with-Gives _ _ (lift-Gives _) λ d h. pure-Gives _ (
            subst (λ u. is_over ev u ≡ true) (returned-injective (sym over.as_double ∙ h))
              over.over))
          (λ no. clash (is_over-has_test ev over.number over.over) no)

    check_open-Never : (id : ℕ) → Never e (check_open J r alert line (id, ev))
    unfolding check_open
    check_open-Never id = bind_with-Gives _ _ sample_of-Gives λ o there.
        cases-some-Gives o _ _ over.value there (
          bind_with-Gives _ _ test_value-Gives λ trig holds.
            if-Gives trig _ _
              (λ _. bind-Gives _ _ λ time.
                bind-Gives _ _
                  λ ts. bind-Gives _ _ λ _. implies-Gives (lift-Gives undefined) λ a h. never h)
              (λ no. clash holds no))
      where
        never : {a : Unit {0}} → ◌≡◌ {A = Outcome (Unit {0})} undefined (returned a) → ⊥
        never h = cc

    check_all-Never :
        (id : ℕ) (events : List (ℕ × ResEvent))
        → OpenAs id ev events
        → Never e (fold_m events tt λ _ x. check_open J r alert line x)
    unfolding fold_m
    check_all-Never id [] o = elim o [ ]
    check_all-Never id ((j, f) ∷ events) (inl (same, is)) =
        bind_with-Gives {R = λ _. ⊥} _ _
          (subst (λ x. Never e (check_open J r alert line x))
            (ap (λ k. (k, ev)) (sym same) ∙ ap (λ g. (j, g)) (sym is)) (check_open-Never id))
          (λ u none_such. elim none_such [ ])
    check_all-Never id (x ∷ events) (inr o) = bind-Gives _ _ λ _. check_all-Never id events o

    -- Whatever the rules do with the sample, the event is still open when it is looked at.
    parse_line-Never :
        (id : ℕ) (s : State)
        → Leaves e id
        → StillOpen id ev s
        → Never e (parse_line J r alert line s)
    unfolding parse_line
    parse_line-Never id s l o =
        bind_with-Gives _ _
          (fold_m-Gives s.event_factory s _ o λ s' rule o'. check_rule-Gives id ev s' rule l o')
          λ s' o'.
            bind_with-Gives {R = λ _. ⊥} _ _ (check_all-Never id s'.current_events o')
              λ _ none_such. elim none_such [ ]

  parse_line-Gives :
      (id : ℕ) (ev : ResEvent) (s : State)
      → Leaves e id
      → StillOpen id ev s
      → Gives e (StillOpen id ev) (parse_line J r alert line s)
  unfolding parse_line
  parse_line-Gives id ev s l o =
      bind_with-Gives _ _
        (fold_m-Gives s.event_factory s _ o λ s' rule o'. check_rule-Gives id ev s' rule l o')
        λ s' o'. bind-Gives _ _ λ _. bind-Gives _ _ λ values. bind-Gives _ _ λ _. pure-Gives s' o'

samples-Never :
    (J : Jsoncpp) (r : Ressource) (alert : Manager) (before : List J.Value) (line : J.Value)
    (after : List J.Value) (s : State) (id : ℕ) (ev : ResEvent) (e : Env)
    → Leaves e id
    → OverAt J line ev
    → StillOpen id ev s
    → Never e (fold_m (before ++ line ∷ after) s λ s' x. parse_line J r alert x s')
unfolding fold_m
samples-Never J r alert [] line after s id ev e l over o =
    bind_with-Gives {R = λ _. ⊥} _ _ (parse_line-Never J r alert line ev over id s l o)
      λ _ none_such. elim none_such [ ]
samples-Never J r alert (x ∷ before) line after s id ev e l over o =
    bind_with-Gives _ _ (parse_line-Gives J r alert x id ev s l o)
      λ s' o'. samples-Never J r alert before line after s' id ev e l over o'

-- If an event is open under a number that the server gives to no new row, and one of the samples has a
-- value at which the event is over, `parse` returns no state: whatever the other samples and the rules
-- are and whatever the server answers, the run is undefined, or throws before it gets there.
pub parse_over :
    (J : Jsoncpp) (r : Ressource) (alert : Manager) (samples : J.Value) (before : List J.Value)
    (line : J.Value) (after : List J.Value) (s s' : State) (id : ℕ) (ev : ResEvent) (e : Env)
    (w : World)
    → Leaves e id
    → OpenAs id ev s.current_events
    → J.elements samples ≡ before ++ line ∷ after
    → OverAt J line ev
    → (run (parse J r alert samples s) e w).0 ≢ returned s'
unfolding parse
parse_over J r alert samples before line after s s' id ev e w l o h over k =
    (samples-Never J r alert before line after s id ev e l over o).at w s'
      (ap (λ xs. (run (fold_m xs s λ t x. parse_line J r alert x t) e w).0) (sym h) ∙ k)
