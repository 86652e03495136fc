-- ===== src/Monad/Settles.antt =====
-- Operations that return or throw, but are never undefined, and the `try` around them, which returns.
use watched_back.Base.{
  if◌then◌else◌, ℕ, ◌≡◌, refl, sym, ap, subst, String, Bool, true, false, Option, none, some, List,
  [], ◌∷◌, All,
}
use watched_back.World.{
  Query, Row, Trace, Exception, bad_query, json_runtime_error, std_exception, Outcome, returned,
  threw, undefined, Env, World,
}
use watched_back.Monad.{
  M, store, go_on, rescue, pure, catch, ask_or_throw, ◌>>=◌, cases, run, my_catch, attempt,
  fold_while, on_exception, log_query, exec, my_exec, lift, fold_caught,
}
use watched_back.Monad.Gives.{Holds}
use watched_back.Monad.Runs.{run-attempt}
use watched_back.Monad.Returns.{Returns, pure-Returns, bind-Returns, if-Returns, cases-Returns}

-- The result has `Q`, or there is an exception.
pub data Ends {A : Type 0} (Q : A → Type 0) : Outcome A → Type 0 where
  well : (a : A) → Q a → Ends Q (returned a)
  badly : (x : Exception) → Ends Q (threw x)

pub record Settles {A : Type 0} (e : Env) (Q : A → Type 0) (m : M A) : Type 0 where
  pub at : (w : World) → Ends Q (run m e w).0

-- An answer that is not undefined.
abbrev pub Defined : {A : Type 0} → Outcome A → Type 0
Defined o = Ends (λ _. Unit {0}) o

-- Fields and numbers may be missing or of another form, which throws.
pub record Reads (e : Env) : Type 0 where
  pub cells : (r : Row) (i : ℕ) → Defined (e.column r i)
  pub numbers : (s : String) → Defined (e.to_uint s)

module _ {e : Env} where
  pub pure-Settles : {A : Type 0} {Q : A → Type 0} (a : A) → Q a → Settles e Q (pure a)
  unfolding run
  pure-Settles a q = record { at = λ w. well a q }

  pub ask_or_throw-Settles :
      {A : Type 0} {Q : A → Type 0} (f : Env → World → Outcome A)
      → ((w : World) → Ends Q (f e w))
      → Settles e Q (ask_or_throw f)
  unfolding run
  ask_or_throw-Settles f d = record { at = d }

  pub store-Settles :
      {Q : Option (List Row) → Type 0} (q : Query)
      → ((t : Trace) → Ends Q (e.store t q))
      → Settles e Q (store q)
  unfolding run
  store-Settles q d = record { at = λ w. d w.trace }

  go_on-ends :
      {A B : Type 0} {R : A → Type 0} {Q : B → Type 0} (r : Outcome A × World) (f : A → M B)
      → Ends R r.0
      → ((a : A) → R a → Settles e Q (f a))
      → Ends Q (go_on r f e).0
  unfolding run
  go_on-ends (returned a, w) f (well b q) k = (k b q).at w
  go_on-ends (threw x, w) f (badly y) k = badly y
  go_on-ends (undefined, w) f none_such k = elim none_such [ ]

  pub bind-Settles :
      {A B : Type 0} {R : A → Type 0} {Q : B → Type 0} (m : M A) (f : A → M B)
      → Settles e R m
      → ((a : A) → R a → Settles e Q (f a))
      → Settles e Q (m >>= f)
  unfolding run
  bind-Settles m f s k = record { at = λ w. go_on-ends (m e w) f (s.at w) k }

  rescued :
      {A : Type 0} {Q : A → Type 0} (r : Outcome A × World) (h : Exception → M A)
      → Ends Q r.0
      → ((x : Exception) → Returns e Q (h x))
      → (a : A) × (v : World) × (rescue r h e ≡ (returned a, v)) × Q a
  unfolding run
  rescued (returned a, w) h (well b q) k = (b, w, refl, q)
  rescued (threw x, w) h (badly y) k = (k y).at w
  rescued (undefined, w) h none_such k = elim none_such [ ]

  -- What returns settles.
  pub Returns-Settles : {A : Type 0} {Q : A → Type 0} {m : M A} → Returns e Q m → Settles e Q m
  Returns-Settles {Q} r = record {
    at = λ w.
        let (a, v, runs, holds) = r.at w in
        subst (Ends Q) (sym (ap (λ x. x.0) runs)) (well a holds);
  }

  pub if-Settles :
      {A : Type 0} {Q : A → Type 0} (b : Bool) (m n : M A)
      → Settles e Q m
      → Settles e Q n
      → Settles e Q (if b then m else n)
  if-Settles true m n sm sn = sm
  if-Settles false m n sm sn = sn

  pub catch-Returns :
      {A : Type 0} {Q : A → Type 0} (m : M A) (h : Exception → M A)
      → Settles e Q m
      → ((x : Exception) → Returns e Q (h x))
      → Returns e Q (catch m h)
  unfolding run
  catch-Returns m h s k = record { at = λ w. rescued (m e w) h (s.at w) k }

  log_query-Returns :
      (q : Query) (from msg : String) → Returns e (λ _. Unit {0}) (log_query q from msg)
  unfolding run
  log_query-Returns q from msg = record { at = λ w. (tt, _, refl, tt) }

  on_exception-Returns :
      (q : Query) (from msg : String) (x : Exception)
      → Returns e (λ _. Unit {0}) (on_exception q from msg x)
  unfolding run
  on_exception-Returns q from msg (bad_query s) = log_query-Returns q from msg
  on_exception-Returns q from msg (json_runtime_error s) = record { at = λ w. (tt, _, refl, tt) }
  on_exception-Returns q from msg (std_exception s) = record { at = λ w. (tt, _, refl, tt) }

  pub my_catch-Returns :
      {S : Type 0} {Q : S → Type 0} (q : Query) (from msg : String) (body : M S)
      → Settles e Q body
      → Returns e (Holds Q) (my_catch q from msg (do s' ← body; pure (some s')))
  unfolding my_catch
  my_catch-Returns q from msg body settles =
      catch-Returns _ _ (bind-Settles body _ settles λ s' k. pure-Settles (some s') k)
        λ x. bind-Returns _ _ (on_exception-Returns q from msg x) λ u _. pure-Returns none tt

  attempted-Returns :
      {S : Type 0} (Q : S → Type 0) (s : S) (next : Option S)
      → Q s
      → Holds Q next
      → Returns e (λ (r : S × Bool). Q r.0) (cases next (pure (s, false)) (λ s'. pure (s', true)))
  unfolding cases
  attempted-Returns Q s none kept h = pure-Returns (s, false) kept
  attempted-Returns Q s (some s') kept h = pure-Returns (s', true) h

  -- Under `try`, and with a handler that only logs, an exception is no more than a result.
  pub attempt-Returns :
      {S : Type 0} {Q : S → Type 0} (q : Query) (from msg : String) (s : S) (body : M S)
      → Q s
      → Settles e Q body
      → Returns e (λ (r : S × Bool). Q r.0) (attempt q from msg s body)
  unfolding attempt
  attempt-Returns {Q} q from msg s body kept settles =
      bind-Returns {R = Holds Q} _ _ (my_catch-Returns q from msg body settles)
        λ next h. attempted-Returns Q s next kept h

  tried-Returns :
      {S : Type 0} (Q : S → Type 0) (s : S) (next : Option S)
      → Holds Q next
      → Returns e
          (λ (r : S × Bool). r.1 ≡ true → Q r.0)
          (cases next (pure (s, false)) (λ s'. pure (s', true)))
  unfolding cases
  tried-Returns Q s none h = pure-Returns (s, false) (λ on. cc)
  tried-Returns Q s (some s') h = pure-Returns (s', true) (λ on. h)

  -- What is known of the value only if there was no exception.
  pub attempt_done-Returns :
      {S : Type 0} {Q : S → Type 0} (q : Query) (from msg : String) (s : S) (body : M S)
      → Settles e Q body
      → Returns e (λ (r : S × Bool). r.1 ≡ true → Q r.0) (attempt q from msg s body)
  unfolding attempt
  attempt_done-Returns {Q} q from msg s body settles =
      bind-Returns {R = Holds Q} _ _ (my_catch-Returns q from msg body settles)
        λ next h. tried-Returns Q s next h

  pub fold_while-Returns :
      {A S : Type 0} {Q : S → Type 0} (xs : List A) (s : S) (body : S → A → M (S × Bool))
      → Q s
      → ((s : S) (a : A) → Q s → Returns e (λ (r : S × Bool). Q r.0) (body s a))
      → Returns e (λ (r : S × Bool). Q r.0) (fold_while xs s body)
  unfolding fold_while
  fold_while-Returns [] s body q k = pure-Returns (s, true) q
  fold_while-Returns (a ∷ more) s body q k = bind-Returns (body s a) _ (k s a q) λ (s', on) q'.
      if-Returns on _ _ (fold_while-Returns more s' body q' k) (pure-Returns (s', false) q')

  -- Over elements that all have `P`.
  pub fold_while-All-Returns :
      {A S : Type 0} {Q : S → Type 0} (P : A → Type 0) (xs : List A) (s : S)
      (body : S → A → M (S × Bool))
      → All P xs
      → Q s
      → ((s : S) (a : A) → P a → Q s → Returns e (λ (r : S × Bool). Q r.0) (body s a))
      → Returns e (λ (r : S × Bool). Q r.0) (fold_while xs s body)
  unfolding fold_while
  fold_while-All-Returns P [] s body all q k = pure-Returns (s, true) q
  fold_while-All-Returns P (a ∷ more) s body (p, all) q k =
      bind-Returns (body s a) _ (k s a p q) λ (s', on) q'.
        if-Returns on _ _ (fold_while-All-Returns P more s' body all q' k)
          (pure-Returns (s', false) q')

  exec-Settles :
      (q : Query) → ((t : Trace) → Defined (e.exec t q)) → Settles e (λ _. Unit {0}) (exec q)
  unfolding run
  exec-Settles q d = record { at = λ w. d w.trace }

  -- A statement, whether the server takes it, refuses it or throws.
  pub my_exec-Returns :
      (q : Query) (from msg : String)
      → ((t : Trace) → Defined (e.exec t q))
      → Returns e (λ _. Unit {0}) (my_exec q from msg)
  unfolding my_exec
  my_exec-Returns q from msg d =
      catch-Returns _ _
        (bind-Settles _ _ (exec-Settles q d) λ done _.
          Returns-Settles (if-Returns done _ _ (pure-Returns tt tt) (log_query-Returns q from msg)))
        (on_exception-Returns q from msg)

  -- An assignment that does not throw.
  pub attempt_well-Returns :
      {S : Type 0} {Q : S → Type 0} (q : Query) (from msg : String) (s : S) (body : M S)
      → Returns e Q body
      → Returns e (λ (r : S × Bool). (r.1 ≡ true) × Q r.0) (attempt q from msg s body)
  attempt_well-Returns q from msg s body r = record {
    at = λ w.
        let (a, v, runs, holds) = r.at w in
        ((a, true), v, run-attempt q from msg s a body e w v runs, (refl, holds));
  }

  pub lift-Settles : {A : Type 0} {Q : A → Type 0} (o : Outcome A) → Ends Q o → Settles e Q (lift o)
  unfolding run
  lift-Settles o d = record { at = λ w. d }

  -- A loop under `try`, which an exception ends.
  pub fold_caught-Returns :
      {A S : Type 0} (q : Query) (from msg : String) (xs : List A) (s : S) (body : S → A → M S)
      → ((s : S) (a : A) → Settles e (λ _. Unit {0}) (body s a))
      → Returns e (λ _. Unit {0}) (fold_caught q from msg xs s body)
  unfolding fold_caught
  fold_caught-Returns q from msg [] s body k = pure-Returns s tt
  fold_caught-Returns q from msg (a ∷ more) s body k =
      bind-Returns _ _ (my_catch-Returns q from msg (body s a) (k s a)) λ next _.
        cases-Returns next _ _ (pure-Returns s tt)
          λ s'. fold_caught-Returns q from msg more s' body k
