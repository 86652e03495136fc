-- ===== src/Monad/Gives.antt =====
-- What the results of an operation satisfy, whenever it returns one.
use watched_back.Base.{
  ◌≡◌, refl, sym, Bool, true, false, Option, none, some, List, [], ◌∷◌, if◌then◌else◌, subst, ap,
  String, ◌⊎◌, inl, inr,
}
use watched_back.Base.{ℕ, suc, ◌+◌, length, arith}
use watched_back.World.{Query, Exception, Outcome, returned, threw, undefined, Env, World}
use watched_back.Monad.{
  M, pure, lift, ◌>>=◌, run, cases, fold_m, rescue, catch, attempt, fold_while, my_catch,
}
use watched_back.Monad.Runs.{bind-returned}

pub record Gives {A : Type 0} (e : Env) (Q : A → Type 0) (m : M A) : Type 0 where
  pub at : (w : World) (a : A) → (run m e w).0 ≡ returned a → Q a

returned-injective : {A : Type 0} {a b : A} → ◌≡◌ {A = Outcome A} (returned a) (returned b) → a ≡ b
returned-injective h = cc

module _ {e : Env} where
  pub pure-Gives : {A : Type 0} {Q : A → Type 0} (a : A) → Q a → Gives e Q (pure a)
  unfolding run
  pure-Gives {Q} a q = record { at = λ w b h. subst Q (returned-injective h) q }

  -- Less than what an operation gives.
  pub implies-Gives :
      {A : Type 0} {R Q : A → Type 0} {m : M A} → Gives e R m → ((a : A) → R a → Q a) → Gives e Q m
  implies-Gives g k = record { at = λ w a h. k a (g.at w a h) }

  -- Whatever the first gives.
  pub bind-Gives :
      {A B : Type 0} {Q : B → Type 0} (m : M A) (f : A → M B)
      → ((a : A) → Gives e Q (f a))
      → Gives e Q (m >>= f)
  bind-Gives m f k = record {
    at = λ w b h. let (a, v, r, rest) = bind-returned m f e w b h in (k a).at v b rest;
  }

  -- With what the first gives.
  pub bind_with-Gives :
      {A B : Type 0} {R : A → Type 0} {Q : B → Type 0} (m : M A) (f : A → M B)
      → Gives e R m
      → ((a : A) → R a → Gives e Q (f a))
      → Gives e Q (m >>= f)
  bind_with-Gives m f g k = record {
    at = λ w b h.
        let (a, v, r, rest) = bind-returned m f e w b h in
        (k a (g.at w a (ap (λ p. p.0) r))).at v b rest;
  }

  pub if-Gives :
      {A : Type 0} {Q : A → Type 0} (b : Bool) (m n : M A)
      → (b ≡ true → Gives e Q m)
      → (b ≡ false → Gives e Q n)
      → Gives e Q (if b then m else n)
  if-Gives true m n gm gn = gm refl
  if-Gives false m n gm gn = gn refl

  pub cases-Gives :
      {A B : Type 0} {Q : B → Type 0} (o : Option A) (n : M B) (s : A → M B)
      → Gives e Q n
      → ((a : A) → Gives e Q (s a))
      → Gives e Q (cases o n s)
  unfolding cases
  cases-Gives none n s gn gs = gn
  cases-Gives (some a) n s gn gs = gs a

  -- With what the option is.
  pub cases_with-Gives :
      {A B : Type 0} {Q : B → Type 0} (o : Option A) (n : M B) (s : A → M B)
      → (o ≡ none → Gives e Q n)
      → ((a : A) → o ≡ some a → Gives e Q (s a))
      → Gives e Q (cases o n s)
  unfolding cases
  cases_with-Gives none n s gn gs = gn refl
  cases_with-Gives (some a) n s gn gs = gs a refl

  -- An option that is known.
  pub cases-some-Gives :
      {A B : Type 0} {Q : B → Type 0} (o : Option A) (n : M B) (s : A → M B) (a : A)
      → o ≡ some a
      → Gives e Q (s a)
      → Gives e Q (cases o n s)
  unfolding cases
  cases-some-Gives {Q} o n s a h g = subst (λ p. Gives e Q (cases p n s)) (sym h) g

  pub fold_m-Gives :
      {A S : Type 0} {Q : S → Type 0} (xs : List A) (s : S) (body : S → A → M S)
      → Q s
      → ((s : S) (a : A) → Q s → Gives e Q (body s a))
      → Gives e Q (fold_m xs s body)
  unfolding fold_m
  fold_m-Gives [] s body q k = pure-Gives s q
  fold_m-Gives (a ∷ more) s body q k =
      bind_with-Gives (body s a) _ (k s a q) λ s' q'. fold_m-Gives more s' body q' k

  -- A loop whose invariant counts the rounds.
  pub fold_m-Gives_counted :
      {A S : Type 0} {Q : ℕ → S → Type 0} (xs : List A) (s : S) (n : ℕ) (body : S → A → M S)
      → Q n s
      → ((n : ℕ) (s : S) (a : A) → Q n s → Gives e (Q (suc n)) (body s a))
      → Gives e (Q (n + length xs)) (fold_m xs s body)
  unfolding fold_m
  fold_m-Gives_counted {Q} [] s n body q k = pure-Gives s (subst (λ m. Q m s) (omega arith) q)
  fold_m-Gives_counted {Q} (a ∷ more) s n body q k =
      bind_with-Gives (body s a) _ (k n s a q) λ s' q'.
        subst (λ m. Gives e (Q m) (fold_m more s' body)) (omega arith)
          (fold_m-Gives_counted more s' (suc n) body q' k)

abbrev pub Holds : {A : Type 0} → (A → Type 0) → Option A → Type 0
Holds Q none = Unit
Holds Q (some a) = Q a

-- What a rescued operation returns comes from it or from the handler.
rescue-returned :
    {A : Type 0} (r : Outcome A × World) (h : Exception → M A) (e : Env) (a : A)
    → (rescue r h e).0 ≡ returned a
    → (r.0 ≡ returned a) ⊎ ((x : Exception) × (v : World) × ((run (h x) e v).0 ≡ returned a))
unfolding run
rescue-returned (returned b, w) h e a k = inl k
rescue-returned (threw x, w) h e a k = inr (x, w, k)
rescue-returned (undefined, w) h e a k = inl k

module _ {e : Env} where
  pub catch-Gives :
      {A : Type 0} {Q : A → Type 0} (m : M A) (h : Exception → M A)
      → Gives e Q m
      → ((x : Exception) → Gives e Q (h x))
      → Gives e Q (catch m h)
  unfolding run
  catch-Gives m h g k = record {
    at = λ w a r. elim (rescue-returned (m e w) h e a r) [
      | inl from ↦ g.at w a from
      | inr (x, v, from) ↦ (k x).at v a from
    ];
  }

  attempted-Gives :
      {S : Type 0} (Q : S → Type 0) (s : S) (next : Option S)
      → Q s
      → Holds Q next
      → Gives e (λ (r : S × Bool). Q r.0) (cases next (pure (s, false)) (λ s'. pure (s', true)))
  unfolding cases
  attempted-Gives Q s none kept h = pure-Gives (s, false) kept
  attempted-Gives Q s (some s') kept h = pure-Gives (s', true) h

  -- The variables before the assignment, or after it.
  pub attempt-Gives :
      {S : Type 0} {Q : S → Type 0} (q : Query) (from msg : String) (s : S) (body : M S)
      → Q s
      → Gives e Q body
      → Gives e (λ (r : S × Bool). Q r.0) (attempt q from msg s body)
  unfolding attempt my_catch
  attempt-Gives {Q} q from msg s body kept g =
      bind_with-Gives {R = Holds Q} _ _
        (catch-Gives _ _ (bind_with-Gives body _ g λ s' k. pure-Gives (some s') k)
          λ x. bind-Gives _ _ λ u. pure-Gives none tt)
        λ next h. attempted-Gives Q s next kept h

  pub fold_while-Gives :
      {A S : Type 0} {Q : S → Type 0} (xs : List A) (s : S) (body : S → A → M (S × Bool))
      → Q s
      → ((s : S) (a : A) → Q s → Gives e (λ (r : S × Bool). Q r.0) (body s a))
      → Gives e (λ (r : S × Bool). Q r.0) (fold_while xs s body)
  unfolding fold_while
  fold_while-Gives [] s body q k = pure-Gives (s, true) q
  fold_while-Gives (a ∷ more) s body q k = bind_with-Gives (body s a) _ (k s a q) λ (s', on) q'.
      if-Gives on _ _ (λ _. fold_while-Gives more s' body q' k) (λ _. pure-Gives (s', false) q')

  -- An answer, with what it is.
  pub lift-Gives : {A : Type 0} (o : Outcome A) → Gives e (λ a. o ≡ returned a) (lift o)
  unfolding run
  lift-Gives o = record { at = λ w a h. h }
