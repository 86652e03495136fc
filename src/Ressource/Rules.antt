-- ===== src/Ressource/Rules.antt =====
-- The rules that open and close events, as tests of one value.
use watched_back.Base.{
  ℕ, ◌<◌, ◌≡◌, false, not, List, [], ◌∷◌, All, arith, eq_iff, if◌then◌else◌, Bool-cases, inl, inr,
}
use watched_back.Double.{Double}
use watched_back.Alerter.{ResEvent}
use watched_back.Ressource.{same_event, find_event, put_event}
use watched_back.Ressource.Parse.{triggers, is_over, has_test}

-- For a rule with one of the operators `<`, `>` and `=`, an open event is over at a value exactly
-- when the value does not trigger the rule: no value both opens and closes an event, and none
-- leaves it undecided. A rule with any other operator is never triggered and never over.
pub is_over-triggers :
    (e : ResEvent) (d : Double) → is_over e d ≡ (if has_test e then not (triggers e d) else false)
is_over-triggers e d = ground arith

-- The open events, by increasing ids or not: none has the id 0, and no two are equal.
abbrev pub Distinct : List (ℕ × ResEvent) → Type 0
Distinct [] = Unit
Distinct ((id, f) ∷ m) = (0 < id) × All (λ p. same_event f p.1 ≡ false) m × Distinct m

same_event_comm : (a b : ResEvent) → same_event a b ≡ same_event b a
same_event_comm a b = ground (arith, eq_iff a.property b.property, eq_iff b.property a.property)

found_or :
    (e : ResEvent) (m : List (ℕ × ResEvent)) (found : ℕ)
    → Distinct m
    → 0 < found
    → 0 < find_event e found m
found_or e [] found d h = h
found_or e ((id, f) ∷ m) found (p, q, d) h = found_or e m _ d (ground arith)

pub find_event-eq-zero :
    (e : ResEvent) (m : List (ℕ × ResEvent))
    → Distinct m
    → find_event e 0 m ≡ 0
    → All (λ p. same_event e p.1 ≡ false) m
find_event-eq-zero e [] d h = tt
find_event-eq-zero e ((id, f) ∷ m) (p, q, d) h = elim (Bool-cases (same_event e f)) [
  | inl y ↦ absurd (omega (arith, found_or e m id d p, rw y at h))
  | inr n ↦ (n, find_event-eq-zero e m d (rw n at h))
]

differs-put_event :
    (g e : ResEvent) (id : ℕ) (m : List (ℕ × ResEvent))
    → same_event g e ≡ false
    → All (λ p. same_event g p.1 ≡ false) m
    → All (λ p. same_event g p.1 ≡ false) (put_event id e m)
differs-put_event g e id [] h a = (h, tt)
differs-put_event g e id ((j, f) ∷ m) h (p, a) = ground (arith, differs-put_event g e id m h a)

-- A new event among distinct ones that all differ from it.
pub put_event-Distinct :
    (e : ResEvent) (id : ℕ) (m : List (ℕ × ResEvent))
    → 0 < id
    → All (λ p. same_event e p.1 ≡ false) m
    → Distinct m
    → Distinct (put_event id e m)
put_event-Distinct e id [] h a d = (h, tt, tt)
put_event-Distinct e id ((j, f) ∷ m) h (p, a) (q, b, d) =
    ground (arith, differs-put_event f e id m, same_event_comm e f, put_event-Distinct e id m h a d)
