-- ===== src/StatAggregator/Known.antt =====
-- What a loading of the data types keeps of those that the aggregator knows.
use watched_back.Base.{
  ℕ, ◌≤◌, ◌≡◌, refl, ap, ◌∙◌, sym, String, Bool, false, Option, none, some, List, str_eq, eq_iff,
  if◌then◌else◌, lookup, put, lookup-put, lookup-put_other, arith, Bool-cases, inl, inr,
}
use watched_back.Double.{Double}
use watched_back.World.{Row, Env}
use watched_back.Monad.{pure, ◌>>=◌}
use watched_back.Monad.Gives.{
  Gives, pure-Gives, bind-Gives, bind_with-Gives, if-Gives, cases-Gives, cases_with-Gives,
  attempt-Gives, fold_while-Gives,
}
use watched_back.StatAggregator.{AggregData, new_data, StatAggregator}
use watched_back.StatAggregator.Loading.{
  Field, delay_am, delay_ah, delay_ad, retention_d, retention_am, retention_ah, retention_ad,
  set_field, read_field, read_fields, with_tables, add_data, with_texts, build, load_data, load_row,
  load,
}

-- The three statements that add to a data type's tables, and when they are due.
abbrev Plan : Type 0
Plan = String × String × String × Double × Double × Double

abbrev pub plan : AggregData → Plan
plan d = (d.base_am, d.base_ah, d.base_ad, d.next_low, d.next_med, d.next_high)

-- `b` knows every data type that `a` knows, with the same plan, and sleeps no longer.
pub record Kept (a b : StatAggregator) : Type 0 where
  pub plans :
      (tbl : String) (d : AggregData)
      → lookup a.tables tbl ≡ some d
      → (d' : AggregData) × (lookup b.tables tbl ≡ some d') × (plan d' ≡ plan d)
  pub freq : b.thread_freq ≤ a.thread_freq

pub plan-set_field : (d : AggregData) (f : Field) (n : ℕ) → plan (set_field d f n) ≡ plan d
plan-set_field d delay_am n = refl
plan-set_field d delay_ah n = refl
plan-set_field d delay_ad n = refl
plan-set_field d retention_d n = refl
plan-set_field d retention_am n = refl
plan-set_field d retention_ah n = refl
plan-set_field d retention_ad n = refl

pub Kept-refl : (a : StatAggregator) → Kept a a
Kept-refl a = record { plans = λ tbl d h. (d, h, refl); freq = omega arith }

pub Kept-trans : (a b c : StatAggregator) → Kept a b → Kept b c → Kept a c
Kept-trans a b c h k = record {
  plans = λ tbl d f.
      let (d1, f1, p1) = h.plans tbl d f in
      let (d2, f2, p2) = k.plans tbl d1 f1 in (d2, f2, p2 ∙ p1);
  freq = omega (arith, h.freq, k.freq);
}

some-injective : {A : Type 0} {a b : A} → ◌≡◌ {A = Option A} (some a) (some b) → a ≡ b
some-injective h = cc

-- A data type that is known is another one than one that is not.
other :
    (m : List (String × AggregData)) (tbl j : String) (d : AggregData)
    → lookup m tbl ≡ none
    → lookup m j ≡ some d
    → str_eq tbl j ≡ false
other m tbl j d h k = ground (arith, eq_iff tbl j)

-- Data that are put in the place of those with the same plan.
pub put-Kept :
    (a : StatAggregator) (tbl : String) (d d' : AggregData)
    → lookup a.tables tbl ≡ some d
    → plan d' ≡ plan d
    → Kept a (with_tables a tbl d')
put-Kept a tbl d d' h p = record {
  plans = λ j x f. elim (Bool-cases (str_eq tbl j)) [
    | inl same ↦
        let e : tbl ≡ j = (eq_iff tbl j).0 same in
        let known : d ≡ x = some-injective (sym h ∙ ap (lookup a.tables) e ∙ f) in
        (
          d',
          ap (lookup (put a.tables tbl d')) (sym e) ∙ lookup-put a.tables tbl d',
          p ∙ ap plan known,
        )
    | inr differs ↦ (x, lookup-put_other a.tables tbl j d' differs ∙ f, refl)
  ];
  freq = omega arith;
}

-- Data that are put where there were none.
add-Kept :
    (a b : StatAggregator) (tbl : String) (d : AggregData)
    → lookup a.tables tbl ≡ none
    → Kept a b
    → Kept a (with_tables b tbl d)
add-Kept a b tbl d h k = record {
  plans = λ j x f.
      let (x', f', p) = k.plans j x f in
      (x', lookup-put_other b.tables tbl j d (other a.tables tbl j x h f) ∙ f', p);
  freq = k.freq;
}

add_data-Kept :
    (a : StatAggregator) (tbl : String) (d : AggregData)
    → lookup a.tables tbl ≡ none
    → Kept a (add_data a tbl d)
add_data-Kept a tbl d h =
    let added = add-Kept a a tbl d h (Kept-refl a) in
    record { plans = added.plans; freq = ground arith }

read_field-Gives :
    (e : Env) (row : Row) (d0 d : AggregData) (f : Field)
    → plan d ≡ plan d0
    → Gives e (λ d'. plan d' ≡ plan d0) (read_field row d f)
unfolding read_field
read_field-Gives e row d0 d f h =
    bind-Gives _ _ λ s. bind-Gives _ _ λ n. pure-Gives _ (plan-set_field d f n ∙ h)

read_fields-Gives :
    (e : Env) (row : Row) (d : AggregData)
    → Gives e (λ (r : AggregData × Bool). plan r.0 ≡ plan d) (read_fields row d)
unfolding read_fields
read_fields-Gives e row d = fold_while-Gives {Q = λ d'. plan d' ≡ plan d} _ d _ refl λ d' f h.
    attempt-Gives {Q = λ d'. plan d' ≡ plan d} _ _ _ d' _ h (read_field-Gives e row d d' f h)

build-Gives :
    (e : Env) (a b : StatAggregator) (tbl : String) (d : AggregData)
    → lookup a.tables tbl ≡ none
    → Kept a b
    → Gives e (λ (r : StatAggregator × Bool). Kept a r.0) (build b tbl d)
unfolding build
build-Gives e a b tbl d h k = bind-Gives _ _ λ (shape, on).
    cases-Gives shape _ _ (pure-Gives (b, on) k)
      λ s. bind-Gives _ _ λ t. pure-Gives _ (add-Kept a b tbl (with_texts d t) h k)

load_unknown :
    (e : Env) (a : StatAggregator) (tbl : String) (row : Row)
    → lookup a.tables tbl ≡ none
    → Gives e
        (λ (r : StatAggregator × Bool). Kept a r.0)
        (do
          (d, on) ← read_fields row new_data
          if on then build (add_data a tbl d) tbl d else pure (a, false))
load_unknown e a tbl row h = bind-Gives _ _ λ (d, on).
    if-Gives on _ _ (λ _. build-Gives e a (add_data a tbl d) tbl d h (add_data-Kept a tbl d h))
      (λ _. pure-Gives (a, false) (Kept-refl a))

load_known :
    (e : Env) (a : StatAggregator) (tbl : String) (row : Row) (d : AggregData)
    → lookup a.tables tbl ≡ some d
    → Gives e
        (λ (r : StatAggregator × Bool). Kept a r.0)
        (do (d', on) ← read_fields row d; pure (with_tables a tbl d', on))
load_known e a tbl row d h =
    bind_with-Gives _ _ (read_fields-Gives e row d)
      λ (d', on) p. pure-Gives _ (put-Kept a tbl d d' h p)

load_row-Gives :
    (e : Env) (a : StatAggregator) (row : Row)
    → Gives e (λ (r : StatAggregator × Bool). Kept a r.0) (load_row a row)
unfolding load_row load_data
load_row-Gives e a row = bind-Gives _ _ λ (tbl, on).
    if-Gives on _ _
      (λ _.
        cases_with-Gives (lookup a.tables tbl) _ _ (load_unknown e a tbl row)
          (load_known e a tbl row))
      (λ _. pure-Gives (a, false) (Kept-refl a))

after_row :
    (e : Env) (a b : StatAggregator) (row : Row)
    → Kept a b
    → Gives e (λ (r : StatAggregator × Bool). Kept a r.0) (load_row b row)
after_row e a b row k = record {
  at = λ w r h. Kept-trans a b r.0 k ((load_row-Gives e b row).at w r h);
}

-- Whatever the database and its failures are, new data types among them: when loading them returns,
-- a data type that the aggregator knew before is known, with the same three insert statements and
-- the same next times (only delays and retentions may change), and the thread's pause has not grown.
pub load-Kept : (e : Env) (a : StatAggregator) → Gives e (Kept a) (load a)
unfolding load
load-Kept e a = bind-Gives _ _ λ (res, on). cases-Gives res _ _ (pure-Gives a (Kept-refl a)) λ rows.
    bind_with-Gives {R = λ (r : StatAggregator × Bool). Kept a r.0} _ _
      (fold_while-Gives rows a load_row (Kept-refl a) λ b row k. after_row e a b row k)
      λ (a', complete) k. pure-Gives a' k
