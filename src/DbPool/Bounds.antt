-- ===== src/DbPool/Bounds.antt =====
-- The count is the connections that are lent and those that were dropped.
use watched_back.Base.{
  ◌↔◌, ℕ, zero, suc, ◌^◌, ◌≤◌, ◌<◌, ◌≡◌, refl, ◌∙◌, Option, none, some, List, [], ◌∷◌, arith,
}
use watched_back.DbPool.{DbPool, grab, release, and_then}
use watched_back.DbPool.Calls.{PoolCall, takes, gives, pool_calls, lent}

-- A pool of any size that an `int` can ask for, but for the greatest `uint32_t`.
pub record Sized (p : DbPool) : Type 0 where
  pub size : suc p.pool_size < 2 ^ 32
  pub used : p.used_count ≤ suc p.pool_size

grab-counts :
    (p q : DbPool)
    → Sized p
    → grab p ≡ some q
    → (q.pool_size ≡ p.pool_size)
      × (q.used_count ≡ suc p.used_count)
      × (q.used_count ≤ suc q.pool_size)
unfolding grab
grab-counts p q s h = ground (arith, s.size, s.used)

and_then-some :
    (o : Option DbPool) (f : DbPool → Option DbPool) (q : DbPool)
    → and_then o f ≡ some q
    → (r : DbPool) × (o ≡ some r) × (f r ≡ some q)
and_then-some none f q h = cc
and_then-some (some r) f q h = (r, refl, h)

release-counts :
    (p : DbPool) (n : ℕ)
    → Sized p
    → p.used_count ≡ suc n
    → ((release p).pool_size ≡ p.pool_size) × ((release p).used_count ≡ n)
unfolding release
release-counts p n s u = ground (arith, s.size, s.used)

-- The count after calls that began with `n` connections lent.
counted :
    (cs : List PoolCall) (p q : DbPool) (n m : ℕ)
    → Sized p
    → p.used_count ≡ n
    → pool_calls cs p ≡ some q
    → lent n cs ≡ some m
    → Sized q × (q.pool_size ≡ p.pool_size) × (q.used_count ≡ m)
unfolding pool_calls
counted [] p q n m s u h l = ground (arith, s.size, s.used)
counted (takes ∷ cs) p q n m s u h l =
    let (r, g, rest) = and_then-some (grab p) (pool_calls cs) q h in
    let (size, used, bound) = grab-counts p r s g in
    let sized : Sized r = record { size = omega (arith, s.size, size); used = bound } in
    let (a, b, c) = counted cs r q (suc n) m sized (omega (arith, used, u)) rest l in
    (a, b ∙ size, c)
counted (gives ∷ cs) p q zero m s u h l = ground arith
counted (gives ∷ cs) p q (suc n) m s u h l =
    let (size, used) = release-counts p n s u in
    let sized : Sized (release p) = record {
      size = omega (arith, s.size, size);
      used = omega (arith, s.used, u, used, size);
    } in
    let (a, b, c) = counted cs (release p) q n m sized used h l in (a, b ∙ size, c)

-- A new pool, and calls of `grab` and `release`, one after the other, that give back no more than was
-- lent: when they have all returned, the count is exactly the connections that are lent, it is at
-- most one more than the size asked for, and that size is what it was.
pub pool_calls-bound :
    (cs : List PoolCall) (p q : DbPool) (m : ℕ)
    → suc p.pool_size < 2 ^ 32
    → p.used_count ≡ 0
    → pool_calls cs p ≡ some q
    → lent 0 cs ≡ some m
    → (q.used_count ≡ m) × (q.used_count ≤ suc p.pool_size) × (q.pool_size ≡ p.pool_size)
pool_calls-bound cs p q m b u h l =
    let s : Sized p = record { size = b; used = omega (arith, u) } in
    let (t, a, c) = counted cs p q 0 m s u h l in (c, omega (arith, t.used, a), a)

-- A pool of which one connection is lent or more: the next `grab` waits exactly if the count is past
-- the size, and after one `release` it goes on and leaves the pool as it was.
next_call :
    (q : DbPool)
    → Sized q
    → 0 < q.used_count
    → (pool_calls (takes ∷ []) q ≡ none ↔ q.used_count ≡ suc q.pool_size)
      × (pool_calls (gives ∷ takes ∷ []) q ≡ some q)
unfolding grab release pool_calls
next_call q s h = ground (arith, s.size, s.used)

-- After such calls of a new pool, with a connection lent: the next `grab` waits exactly if one
-- connection more than the size is lent, and a `release` before it makes it return, with the pool as
-- it was.
pub pool_calls-waits :
    (cs : List PoolCall) (p q : DbPool) (m : ℕ)
    → suc p.pool_size < 2 ^ 32
    → p.used_count ≡ 0
    → pool_calls cs p ≡ some q
    → lent 0 cs ≡ some m
    → 0 < m
    → (pool_calls (takes ∷ []) q ≡ none ↔ m ≡ suc p.pool_size)
      × (pool_calls (gives ∷ takes ∷ []) q ≡ some q)
pool_calls-waits cs p q m b u h l some_lent =
    let (c, bound, size) = pool_calls-bound cs p q m b u h l in
    let ((waits, full), again) =
      next_call q record { size = omega (arith, size, b); used = omega (arith, size, bound) }
        (omega (arith, c, some_lent)) in
    (((λ w. omega (arith, waits w, c, size)), λ f. full (omega (arith, f, c, size))), again)
