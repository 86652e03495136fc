-- ===== src/Monad/Returns.antt =====
-- Operations that return a result from every world, and what the results satisfy.
use watched_back.Base.{
  ◌≡◌, refl, sym, subst, ap, ◌∙◌, Bool, true, false, List, [], ◌∷◌, if◌then◌else◌, Option, none,
  some,
}
use watched_back.World.{Query, Row, Trace, stored, Event, add_event, Outcome, returned, Env, World}
use watched_back.Monad.{M, emit, ask, ask_or_throw, store, pure, cases, lift, ◌>>=◌, fold_m, run}
use watched_back.Monad.Runs.{bind_run, run-store}

pub record Returns {A : Type 0} (e : Env) (Q : A → Type 0) (m : M A) : Type 0 where
  pub at : (w : World) → (a : A) × (v : World) × (run m e w ≡ (returned a, v)) × Q a

module _ {e : Env} where
  pub pure-Returns : {A : Type 0} {Q : A → Type 0} (a : A) → Q a → Returns e Q (pure a)
  unfolding run
  pure-Returns a q = record { at = λ w. (a, w, refl, q) }

  -- Less than what an operation returns.
  pub implies-Returns :
      {A : Type 0} {R Q : A → Type 0} {m : M A}
      → Returns e R m
      → ((a : A) → R a → Q a)
      → Returns e Q m
  implies-Returns r k = record { at = λ w. let (a, v, runs, q) = r.at w in (a, v, runs, k a q) }

  pub emit-Returns : (x : Event) → Returns e (λ _. Unit {0}) (emit x)
  unfolding run
  emit-Returns x = record { at = λ w. (tt, add_event w x, refl, tt) }

  pub ask-Returns : {A : Type 0} (f : Env → World → A) → Returns e (λ _. Unit {0}) (ask f)
  unfolding run
  ask-Returns f = record { at = λ w. (f e w, w, refl, tt) }

  pub ask_or_throw-Returns :
      {A : Type 0} {Q : A → Type 0} (f : Env → World → Outcome A)
      → ((w : World) → (a : A) × (f e w ≡ returned a) × Q a)
      → Returns e Q (ask_or_throw f)
  unfolding run
  ask_or_throw-Returns f k = record {
    at = λ w. let (a, h, q) = k w in (a, w, ap (λ o. (o, w)) h, q);
  }

  pub store-Returns :
      {Q : Option (List Row) → Type 0} (q : Query) (a : Option (List Row))
      → ((t : Trace) → e.store t q ≡ returned a)
      → Q a
      → Returns e Q (store q)
  store-Returns q a h holds = record {
    at = λ w. (a, add_event w (stored q), run-store q a e w (h w.trace), holds);
  }

  pub bind-Returns :
      {A B : Type 0} {R : A → Type 0} {Q : B → Type 0} (m : M A) (f : A → M B)
      → Returns e R m
      → ((a : A) → R a → Returns e Q (f a))
      → Returns e Q (m >>= f)
  bind-Returns m f r k = record {
    at = λ w.
        let (a, v, runs, holds) = r.at w in
        let (b, u, runs2, holds') = (k a holds).at v in
        (b, u, bind_run m f e w v a runs ∙ runs2, holds');
  }

  pub lift-Returns :
      {A : Type 0} {Q : A → Type 0} (o : Outcome A) (a : A)
      → o ≡ returned a
      → Q a
      → Returns e Q (lift o)
  unfolding run
  lift-Returns o a h q = record { at = λ w. (a, w, ap (λ x. (x, w)) h, q) }

  pub if-Returns :
      {A : Type 0} {Q : A → Type 0} (b : Bool) (m n : M A)
      → Returns e Q m
      → Returns e Q n
      → Returns e Q (if b then m else n)
  if-Returns true m n rm rn = rm
  if-Returns false m n rm rn = rn

  pub fold_m-Returns :
      {A S : Type 0} {Q : S → Type 0} (xs : List A) (s : S) (body : S → A → M S)
      → Q s
      → ((s : S) (a : A) → Q s → Returns e Q (body s a))
      → Returns e Q (fold_m xs s body)
  unfolding fold_m
  fold_m-Returns [] s body q k = pure-Returns s q
  fold_m-Returns (a ∷ more) s body q k =
      bind-Returns (body s a) _ (k s a q) λ s' q'. fold_m-Returns more s' body q' k

  -- With what the test says.
  pub if_with-Returns :
      {A : Type 0} {Q : A → Type 0} (b : Bool) (m n : M A)
      → (b ≡ true → Returns e Q m)
      → Returns e Q n
      → Returns e Q (if b then m else n)
  if_with-Returns true m n rm rn = rm refl
  if_with-Returns false m n rm rn = rn

  -- With what the test says, on both branches.
  pub if_cases-Returns :
      {A : Type 0} {Q : A → Type 0} (b : Bool) (m n : M A)
      → (b ≡ true → Returns e Q m)
      → (b ≡ false → Returns e Q n)
      → Returns e Q (if b then m else n)
  if_cases-Returns true m n rm rn = rm refl
  if_cases-Returns false m n rm rn = rn refl

  pub cases-Returns :
      {A B : Type 0} {Q : B → Type 0} (o : Option A) (n : M B) (s : A → M B)
      → Returns e Q n
      → ((a : A) → Returns e Q (s a))
      → Returns e Q (cases o n s)
  unfolding cases
  cases-Returns none n s rn rs = rn
  cases-Returns (some a) n s rn rs = rs a

  -- An option that is empty.
  pub cases-none-Returns :
      {A B : Type 0} {Q : B → Type 0} (o : Option A) (n : M B) (s : A → M B)
      → o ≡ none
      → Returns e Q n
      → Returns e Q (cases o n s)
  unfolding cases
  cases-none-Returns {Q} o n s h r = subst (λ p. Returns e Q (cases p n s)) (sym h) r

  -- An option that is known.
  pub cases-some-Returns :
      {A B : Type 0} {Q : B → Type 0} (o : Option A) (n : M B) (s : A → M B) (a : A)
      → o ≡ some a
      → Returns e Q (s a)
      → Returns e Q (cases o n s)
  unfolding cases
  cases-some-Returns {Q} o n s a h r = subst (λ p. Returns e Q (cases p n s)) (sym h) r
