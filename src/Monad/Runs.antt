-- ===== src/Monad/Runs.antt =====
-- A run of two operations in a row: what it says of the first.
use watched_back.Base.{◌≡◌, refl, String, true, Option, List}
use watched_back.World.{
  Query, Row, stored, add_event, Outcome, returned, threw, undefined, Env, World,
}
use watched_back.Monad.{M, go_on, ◌>>=◌, run, lift, pure, store, attempt}

go_on-returned :
    {A B : Type 0} (r : Outcome A × World) (f : A → M B) (e : Env) (b : B)
    → (go_on r f e).0 ≡ returned b
    → (a : A) × (w : World) × (r ≡ (returned a, w)) × ((f a e w).0 ≡ returned b)
go_on-returned (returned a, w) f e b h = (a, w, refl, h)
go_on-returned (threw x, w) f e b h = cc
go_on-returned (undefined, w) f e b h = cc

-- If both return, so does the first, and then the second.
pub bind-returned :
    {A B : Type 0} (m : M A) (f : A → M B) (e : Env) (w : World) (b : B)
    → (run (m >>= f) e w).0 ≡ returned b
    → (a : A) × (v : World) × (run m e w ≡ (returned a, v)) × ((run (f a) e v).0 ≡ returned b)
unfolding run
bind-returned m f e w b h = go_on-returned (m e w) f e b h

-- The second follows the first.
pub bind_run :
    {A B : Type 0} (m : M A) (f : A → M B) (e : Env) (w v : World) (a : A)
    → run m e w ≡ (returned a, v)
    → run (m >>= f) e w ≡ run (f a) e v
unfolding run
bind_run m f e w v a h = rw h

pub run-lift :
    {A : Type 0} (o : Outcome A) (e : Env) (w : World) (a : A)
    → o ≡ returned a
    → run (lift o) e w ≡ (returned a, w)
unfolding run
run-lift o e w a h = rw h

-- An answer that is known, in front of the rest.
pub lift-bind :
    {A B : Type 0} (o : Outcome A) (f : A → M B) (e : Env) (w : World) (a : A)
    → o ≡ returned a
    → run (lift o >>= f) e w ≡ run (f a) e w
lift-bind o f e w a h = bind_run (lift o) f e w w a (run-lift o e w a h)

pub run-pure : {A : Type 0} (a : A) (e : Env) (w : World) → run (pure a) e w ≡ (returned a, w)
unfolding run
run-pure a e w = refl

-- An assignment that does not throw.
pub run-attempt :
    {S : Type 0} (q : Query) (from msg : String) (s s' : S) (body : M S) (e : Env) (w v : World)
    → run body e w ≡ (returned s', v)
    → run (attempt q from msg s body) e w ≡ (returned (s', true), v)
unfolding run
run-attempt q from msg s s' body e w v h = rw h refl

-- A query whose answer is known.
pub run-store :
    (q : Query) (a : Option (List Row)) (e : Env) (w : World)
    → e.store w.trace q ≡ returned a
    → run (store q) e w ≡ (returned a, add_event w (stored q))
unfolding run
run-store q a e w h = rw h refl
