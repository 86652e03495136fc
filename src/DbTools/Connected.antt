-- ===== src/DbTools/Connected.antt =====
-- Taking and giving back a connection over a pool that has one.
use watched_back.Base.{clash, ℕ, ◌≡◌, refl, sym, String, true, Option, none, some, subst}
use watched_back.World.{Trace, returned, Env}
use watched_back.Monad.{M, run}
use watched_back.Monad.Returns.{
  Returns, pure-Returns, bind-Returns, emit-Returns, ask-Returns, ask_or_throw-Returns,
  cases-Returns, if_cases-Returns,
}
use watched_back.DbTools.{set_conn, keep_conn, grab, release, with_connection}

-- The pool gives a connection whenever it is asked.
pub record Lends (e : Env) : Type 0 where
  pub connection : Trace → ℕ
  pub lends : (t : Trace) → e.safe_grab t ≡ returned (some (connection t))

module _ {e : Env} where
  set_conn-Returns : (this : ℕ) (c : Option ℕ) → Returns e (λ _. Unit {0}) (set_conn this c)
  unfolding run set_conn
  set_conn-Returns this c = record { at = λ w. (tt, _, refl, tt) }

  keep_conn-Returns : (this c : ℕ) → Returns e (λ b. b ≡ true) (keep_conn this (some c))
  unfolding keep_conn
  keep_conn-Returns this c =
      bind-Returns _ _ (emit-Returns _)
        λ _ _. bind-Returns _ _ (set_conn-Returns this (some c)) λ _ _. pure-Returns true refl

  grab-Returns : (this : ℕ) → Lends e → Returns e (λ b. b ≡ true) (grab this)
  unfolding grab
  grab-Returns this l = bind-Returns _ _ (ask-Returns _) λ db _.
      cases-Returns db _ _
        (bind-Returns {R = λ o. (c : ℕ) × (o ≡ some c)} _ _
          (ask_or_throw-Returns _ λ w. (some (l.connection w.trace), l.lends w.trace, (_, refl)))
          λ o (c, same).
            subst (λ x. Returns e (λ b. b ≡ true) (keep_conn this x)) (sym same)
              (keep_conn-Returns this c))
        (λ _. pure-Returns true refl)

  pub release-Returns : (this : ℕ) → Returns e (λ _. Unit {0}) (release this)
  unfolding release
  release-Returns this = bind-Returns _ _ (ask-Returns _) λ db _.
      cases-Returns db _ _ (pure-Returns tt tt)
        λ c. bind-Returns _ _ (emit-Returns _) λ _ _. set_conn-Returns this none

  pub with_connection-Returns :
      {A : Type 0} {Q : A → Type 0} (this : ℕ) (from : String) (otherwise : A) (rest : M A)
      → Lends e
      → Returns e Q rest
      → Returns e Q (with_connection this from otherwise rest)
  unfolding with_connection
  with_connection-Returns this from otherwise rest l r =
      bind-Returns _ _ (grab-Returns this l)
        λ got h. if_cases-Returns got _ _ (λ _. r) (λ no. clash h no)
