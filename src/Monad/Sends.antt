-- ===== src/Monad/Sends.antt =====
-- Operations that return a known result after known statements, and do nothing else.
use watched_back.Base.{
  ◌≡◌, refl, ◌∙◌, ap, sym, subst, Bool, true, false, if◌then◌else◌, map, flat_map, String, Bool,
  List, [], ◌∷◌, ◌++◌, append-nil, append_assoc,
}
use watched_back.World.{returned, query, executed, Env, World, add_event}
use watched_back.Monad.{M, pure, ◌>>=◌, run, fold_m}
use watched_back.Monad.Runs.{bind_run, run-pure}

-- The world after the statements, in order; their texts have no placeholders.
abbrev pub after : World → List String → World
after w [] = w
after w (s ∷ ss) = after (add_event w (executed (query s []))) ss

pub record Sends {A : Type 0} (e : Env) (m : M A) (a : A) (texts : List String) : Type 0 where
  pub at : (w : World) → run m e w ≡ (returned a, after w texts)

pub after-append : (w : World) (ss ts : List String) → after w (ss ++ ts) ≡ after (after w ss) ts
after-append w [] ts = refl
after-append w (s ∷ ss) ts = after-append _ ss ts

-- The body of a loop that collects what its rounds give.
abbrev pub collect : {A B : Type 0} → (A → M B) → List B → A → M (List B)
collect f done x = do next ← f x; pure (done ++ next ∷ [])

module _ {e : Env} where
  pub pure-Sends : {A : Type 0} (a : A) → Sends e (pure a) a []
  pure-Sends a = record { at = λ w. run-pure a e w }

  pub bind-Sends :
      {A B : Type 0} {m : M A} {a : A} {b : B} {ss ts : List String} (f : A → M B)
      → Sends e m a ss
      → Sends e (f a) b ts
      → Sends e (m >>= f) b (ss ++ ts)
  bind-Sends {m} {a} {b} {ss} {ts} f first second = record {
    at = λ w.
        bind_run m f e w (after w ss) a (first.at w)
        ∙ second.at (after w ss)
        ∙ ap (λ v. (returned b, v)) (sym (after-append w ss ts));
  }

  -- A result that is only changed afterwards.
  pub map-Sends :
      {A B : Type 0} {m : M A} {a : A} {ss : List String} (g : A → B)
      → Sends e m a ss
      → Sends e (m >>= λ x. pure (g x)) (g a) ss
  map-Sends {m} {a} {ss} g first =
      subst (λ ts. Sends e (m >>= λ x. pure (g x)) (g a) ts) (append-nil ss)
        (bind-Sends (λ x. pure (g x)) first (pure-Sends (g a)))

  -- A loop that collects what its rounds give.
  pub collect-Sends :
      {A B : Type 0} (f : A → M B) (g : A → B) (texts : A → List String) (xs : List A)
      (done : List B)
      → ((x : A) → Sends e (f x) (g x) (texts x))
      → Sends e (fold_m xs done (collect f)) (done ++ map g xs) (flat_map texts xs)
  unfolding fold_m flat_map
  collect-Sends f g texts [] done k =
      subst (λ r. Sends e (pure done) r []) (sym (append-nil done)) (pure-Sends done)
  collect-Sends f g texts (x ∷ xs) done k =
      bind-Sends (λ next. fold_m xs next (collect f)) (map-Sends (λ next. done ++ next ∷ []) (k x))
        (subst (λ r. Sends e (fold_m xs (done ++ g x ∷ []) (collect f)) r (flat_map texts xs))
          (append_assoc done (g x ∷ []) (map g xs))
          (collect-Sends f g texts xs (done ++ g x ∷ []) k))

  -- A part that is skipped unless `b`, where a result changes with it.
  pub if-Sends :
      {A : Type 0} {texts : List String} (b : Bool) (m n : M A) (result : Bool → A)
      → Sends e m (result true) texts
      → Sends e n (result false) []
      → Sends e (if b then m else n) (result b) (if b then texts else [])
  if-Sends true m n result on off = on
  if-Sends false m n result on off = off
