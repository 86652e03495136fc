-- ===== src/Monad.antt =====
-- Operations on the world: what an object's method does, with exceptions. `myqExec` and `myqCatch`
-- are the macros of include/backend.h.
pub mod Keeps
pub mod Runs
pub mod Gives
pub mod Sends
pub mod Returns
pub mod Settles
use watched_back.Base.{
  ℕ, ℤ, String, Bool, true, false, Option, none, some, List, [], ◌∷◌, if◌then◌else◌,
}
use watched_back.Double.{Double}
use watched_back.World.{
  Query, Exception, bad_query, json_runtime_error, std_exception, Outcome, returned, threw,
  undefined, Row, Event, stored, executed, logged, Env, World, add_event,
}

abbrev pub M : Type 0 → Type 0
M A = Env → World → Outcome A × World

abbrev go_on : {A B : Type 0} → Outcome A × World → (A → M B) → Env → Outcome B × World
go_on (returned a, w) f e = f a e w
go_on (threw x, w) f e = (threw x, w)
go_on (undefined, w) f e = (undefined, w)

abbrev rescue : {A : Type 0} → Outcome A × World → (Exception → M A) → Env → Outcome A × World
rescue (returned a, w) h e = (returned a, w)
rescue (threw x, w) h e = h x e w
rescue (undefined, w) h e = (undefined, w)

pub pure : {A : Type 0} → A → M A
pure a e w = (returned a, w)

-- An answer that may be an exception.
pub lift : {A : Type 0} → Outcome A → M A
lift o e w = (o, w)

-- An answer of the surroundings.
pub ask : {A : Type 0} → (Env → World → A) → M A
ask f e w = (returned (f e w), w)

pub ask_or_throw : {A : Type 0} → (Env → World → Outcome A) → M A
ask_or_throw f e w = (f e w, w)

pub emit : Event → M (Unit {0})
emit v e w = (returned tt, add_event w v)

-- `query.store()`
pub store : Query → M (Option (List Row))
store q e w = (e.store w.trace q, add_event w (stored q))

-- `query.exec()`
pub exec : Query → M Bool
exec q e w = (e.exec w.trace q, add_event w (executed q))

pub catch : {A : Type 0} → M A → (Exception → M A) → M A
catch m h e w = rescue (m e w) h e

infixl 5 ◌>>=◌ ◌>>◌
-- Opening this opens all of the above.
unfoldable pub ◌>>=◌ : {A B : Type 0} → M A → (A → M B) → M B
unfolding pure lift ask ask_or_throw emit store exec catch
◌>>=◌ m f e w = go_on (m e w) f e

abbrev pub ◌>>◌ : {B : Type 0} → M (Unit {0}) → M B → M B
m >> k = m >>= λ _. k

-- `if (x) { … }` on a result that may be empty.
unfoldable pub cases : {A B : Type 0} → Option A → M B → (A → M B) → M B
cases none n s = n
cases (some a) n s = s a

-- `*res.begin()`
unfoldable pub first_row : List Row → M Row
first_row [] = lift undefined
first_row (r ∷ rs) = pure r

-- A loop whose body changes the variables `s`.
unfoldable pub fold_m : {A S : Type 0} → List A → S → (S → A → M S) → M S
fold_m [] s body = pure s
fold_m (a ∷ more) s body = do s' ← body s a; fold_m more s' body

-- `l->error`, `l->warning`, `l->notice`, `l->info`
abbrev pub error : String → String → M (Unit {0})
error from msg = emit (logged 1 from msg)

abbrev pub warning : String → String → M (Unit {0})
warning from msg = emit (logged 2 from msg)

abbrev pub notice : String → String → M (Unit {0})
notice from msg = emit (logged 3 from msg)

abbrev pub info : String → String → M (Unit {0})
info from msg = emit (logged 4 from msg)

-- `row[i].c_str()`
abbrev pub column : Row → ℕ → M String
column r i = ask_or_throw λ e w. e.column r i

-- `int(…)`
abbrev pub to_int : String → M ℤ
to_int s = ask_or_throw λ e w. e.to_int s

-- A conversion to `uint32_t`.
abbrev pub to_uint : String → M ℕ
to_uint s = ask_or_throw λ e w. e.to_uint s

abbrev pub to_double : String → M Double
to_double s = ask_or_throw λ e w. e.to_double s

abbrev pub now : M Double
now = ask λ e w. e.now w.trace

abbrev pub insert_id : Query → M ℕ
insert_id q = ask λ e w. e.insert_id w.trace q

-- What a failed query writes to the log, in both macros.
unfoldable pub log_query : Query → String → String → M (Unit {0})
log_query q from msg = do
  error from msg
  problem ← ask λ e w. e.query_error w.trace q
  notice from problem
  sql ← ask λ e w. e.query_str q
  info from sql

unfoldable pub log_what : String → String → String → M (Unit {0})
log_what from msg reason = do error from msg; notice from reason

-- The two handlers of `myqCatch`, in order.
unfoldable pub on_exception : Query → String → String → Exception → M (Unit {0})
on_exception q from msg (bad_query s) = log_query q from msg
on_exception q from msg (json_runtime_error s) = log_what from msg s
on_exception q from msg (std_exception s) = log_what from msg s

-- `try { body } myqCatch(q, from, msg)`. The body gives `none` where it ends without a `return`.
unfoldable pub my_catch : {A : Type 0} → Query → String → String → M (Option A) → M (Option A)
my_catch q from msg body = catch body λ x. do on_exception q from msg x; pure none

-- `myqExec(q, from, msg)`
unfoldable pub my_exec : Query → String → String → M (Unit {0})
my_exec q from msg =
    catch (do done ← exec q; if done then pure tt else log_query q from msg)
      (on_exception q from msg)

-- A loop inside `try { … } myqCatch`: an exception ends it, and what the variables `s` were given
-- before stays.
unfoldable pub fold_caught :
    {A S : Type 0} → Query → String → String → List A → S → (S → A → M S) → M S
fold_caught q from msg [] s body = pure s
fold_caught q from msg (a ∷ more) s body = do
  next ← my_catch q from msg (do s' ← body s a; pure (some s'))
  cases next (pure s) (λ s'. fold_caught q from msg more s' body)

-- One assignment inside `try { … } myqCatch`: what the variables `s` have become, and whether the
-- body goes on.
unfoldable pub attempt : {S : Type 0} → Query → String → String → S → M S → M (S × Bool)
attempt q from msg s body = do
  next ← my_catch q from msg (do s' ← body; pure (some s'))
  cases next (pure (s, false)) (λ s'. pure (s', true))

-- A loop whose rounds say whether it goes on.
unfoldable pub fold_while : {A S : Type 0} → List A → S → (S → A → M (S × Bool)) → M (S × Bool)
fold_while [] s body = pure (s, true)
fold_while (a ∷ more) s body = do
  (s', on) ← body s a
  if on then fold_while more s' body else pure (s', false)

-- Running an operation. Opening this opens all of the above.
unfoldable pub run : {A : Type 0} → M A → Env → World → Outcome A × World
unfolding ◌>>=◌ cases first_row fold_m fold_caught attempt fold_while log_query log_what
    on_exception my_catch my_exec
run m e w = m e w
