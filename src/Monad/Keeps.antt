-- ===== src/Monad/Keeps.antt =====
-- Invariants of operations, one rule for each way to build an operation.
use watched_back.Base.{
  ℕ, String, Bool, true, false, Option, none, some, List, [], ◌∷◌, if◌then◌else◌,
}
use watched_back.World.{
  Query, Exception, bad_query, json_runtime_error, std_exception, Outcome, returned, threw,
  undefined, Row, Event, stored, executed, logged, Env, World, add_event,
}
use watched_back.Monad.{
  M, go_on, rescue, pure, lift, ask, ask_or_throw, emit, store, exec, catch, ◌>>=◌, cases,
  first_row, fold_m, fold_caught, log_query, log_what, on_exception, my_catch, my_exec,
}

-- However the operation ends, it takes every world with `P` to one with `P`.
pub record Keeps {A : Type 0} (P : World → Type 0) (m : M A) : Type 0 where
  pub at : (e : Env) (w : World) → P w → P (m e w).1

-- The event may happen in a world with `P`.
pub record Allows (P : World → Type 0) (v : Event) : Type 0 where
  pub at : (w : World) → P w → P (add_event w v)

-- All that is written to the log may be.
pub record AllowsLog (P : World → Type 0) : Type 0 where
  pub at : (n : ℕ) (from msg : String) → Allows P (logged n from msg)

module _ {P : World → Type 0} where
  pub pure-Keeps : {A : Type 0} (a : A) → Keeps P (pure a)
  unfolding pure
  pure-Keeps a = record { at = λ e w p. p }

  pub lift-Keeps : {A : Type 0} (o : Outcome A) → Keeps P (lift o)
  unfolding lift
  lift-Keeps o = record { at = λ e w p. p }

  pub ask-Keeps : {A : Type 0} (f : Env → World → A) → Keeps P (ask f)
  unfolding ask
  ask-Keeps f = record { at = λ e w p. p }

  pub ask_or_throw-Keeps : {A : Type 0} (f : Env → World → Outcome A) → Keeps P (ask_or_throw f)
  unfolding ask_or_throw
  ask_or_throw-Keeps f = record { at = λ e w p. p }

  pub emit-Keeps : (v : Event) → Allows P v → Keeps P (emit v)
  unfolding emit
  emit-Keeps v a = record { at = λ e w p. a.at w p }

  pub log-Keeps : (n : ℕ) (from msg : String) → AllowsLog P → Keeps P (emit (logged n from msg))
  log-Keeps n from msg a = emit-Keeps _ (a.at n from msg)

  pub store-Keeps : (q : Query) → Allows P (stored q) → Keeps P (store q)
  unfolding store
  store-Keeps q a = record { at = λ e w p. a.at w p }

  pub exec-Keeps : (q : Query) → Allows P (executed q) → Keeps P (exec q)
  unfolding exec
  exec-Keeps q a = record { at = λ e w p. a.at w p }

  go_on-keeps :
      {A B : Type 0} (r : Outcome A × World) (f : A → M B) (e : Env)
      → P r.1
      → ((a : A) → Keeps P (f a))
      → P (go_on r f e).1
  go_on-keeps (returned a, w) f e p k = (k a).at e w p
  go_on-keeps (threw x, w) f e p k = p
  go_on-keeps (undefined, w) f e p k = p

  pub bind-Keeps :
      {A B : Type 0} (m : M A) (f : A → M B)
      → Keeps P m
      → ((a : A) → Keeps P (f a))
      → Keeps P (m >>= f)
  unfolding ◌>>=◌
  bind-Keeps m f km kf = record { at = λ e w p. go_on-keeps (m e w) f e (km.at e w p) kf }

  rescue-keeps :
      {A : Type 0} (r : Outcome A × World) (h : Exception → M A) (e : Env)
      → P r.1
      → ((x : Exception) → Keeps P (h x))
      → P (rescue r h e).1
  rescue-keeps (returned a, w) h e p k = p
  rescue-keeps (threw x, w) h e p k = (k x).at e w p
  rescue-keeps (undefined, w) h e p k = p

  pub catch-Keeps :
      {A : Type 0} (m : M A) (h : Exception → M A)
      → Keeps P m
      → ((x : Exception) → Keeps P (h x))
      → Keeps P (catch m h)
  unfolding catch
  catch-Keeps m h km kh = record { at = λ e w p. rescue-keeps (m e w) h e (km.at e w p) kh }

  pub if-Keeps :
      {A : Type 0} (b : Bool) (m n : M A) → Keeps P m → Keeps P n → Keeps P (if b then m else n)
  if-Keeps true m n km kn = km
  if-Keeps false m n km kn = kn

  pub cases-Keeps :
      {A B : Type 0} (o : Option A) (n : M B) (s : A → M B)
      → Keeps P n
      → ((a : A) → Keeps P (s a))
      → Keeps P (cases o n s)
  unfolding cases
  cases-Keeps none n s kn ks = kn
  cases-Keeps (some a) n s kn ks = ks a

  pub first_row-Keeps : (rs : List Row) → Keeps P (first_row rs)
  unfolding first_row
  first_row-Keeps [] = lift-Keeps undefined
  first_row-Keeps (r ∷ rs) = pure-Keeps r

  pub fold_m-Keeps :
      {A S : Type 0} (xs : List A) (s : S) (body : S → A → M S)
      → ((s : S) (a : A) → Keeps P (body s a))
      → Keeps P (fold_m xs s body)
  unfolding fold_m
  fold_m-Keeps [] s body k = pure-Keeps s
  fold_m-Keeps (a ∷ more) s body k =
      bind-Keeps (body s a) _ (k s a) (λ s'. fold_m-Keeps more s' body k)

pub ruleset keeps_rules = (
  pure-Keeps, lift-Keeps, ask-Keeps, ask_or_throw-Keeps, log-Keeps, emit-Keeps, store-Keeps,
  exec-Keeps, bind-Keeps, catch-Keeps, if-Keeps, cases-Keeps, first_row-Keeps, fold_m-Keeps,
)

module _ {P : World → Type 0} where
  pub log_query-Keeps :
      (q : Query) (from msg : String) → AllowsLog P → Keeps P (log_query q from msg)
  unfolding log_query
  log_query-Keeps q from msg log = search keeps_rules

  on_exception-Keeps :
      (q : Query) (from msg : String) (x : Exception)
      → AllowsLog P
      → Keeps P (on_exception q from msg x)
  unfolding on_exception log_what
  on_exception-Keeps q from msg (bad_query s) log = log_query-Keeps q from msg log
  on_exception-Keeps q from msg (json_runtime_error s) log = search keeps_rules
  on_exception-Keeps q from msg (std_exception s) log = search keeps_rules

  pub my_catch-Keeps :
      {A : Type 0} (q : Query) (from msg : String) (body : M (Option A))
      → AllowsLog P
      → Keeps P body
      → Keeps P (my_catch q from msg body)
  unfolding my_catch
  my_catch-Keeps q from msg body log k = search (keeps_rules, on_exception-Keeps)

  pub my_exec-Keeps :
      (q : Query) (from msg : String)
      → AllowsLog P
      → Allows P (executed q)
      → Keeps P (my_exec q from msg)
  unfolding my_exec
  my_exec-Keeps q from msg log a = search (keeps_rules, on_exception-Keeps, log_query-Keeps)

module _ {P : World → Type 0} where
  pub fold_caught-Keeps :
      {A S : Type 0} (q : Query) (from msg : String) (xs : List A) (s : S) (body : S → A → M S)
      → AllowsLog P
      → ((s : S) (a : A) → Keeps P (body s a))
      → Keeps P (fold_caught q from msg xs s body)
  unfolding fold_caught
  fold_caught-Keeps q from msg [] s body log k = pure-Keeps s
  fold_caught-Keeps q from msg (a ∷ more) s body log k =
      bind-Keeps _ _
        (my_catch-Keeps q from msg _ log (bind-Keeps _ _ (k s a) λ s'. pure-Keeps (some s')))
        λ next.
          cases-Keeps next _ _ (pure-Keeps s) λ s'. fold_caught-Keeps q from msg more s' body log k

pub ruleset query_rules =
    (keeps_rules, fold_caught-Keeps, my_catch-Keeps, my_exec-Keeps, log_query-Keeps)
