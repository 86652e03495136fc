-- ===== src/Log/Level.antt =====
-- The levels' names and numbers.
use watched_back.Base.{
  ℕ, zero, suc, ◌+◌, ◌<◌, ◌≡◌, refl, subst, length, ◌≢◌, ◌⊎◌, inl, inr, String, List, [], ◌∷◌, All,
  arith, str_eq, eq_iff, to_upper, Bool-cases, str_eq,
}
use watched_back.World.{returned}
use watched_back.Log.{levels, element, last_index, level_of}

-- Either no element has the name, or the index is that of one that has.
last_index_lem :
    (name : String) (i found : ℕ) (xs : List String)
    → (All (λ x. x ≢ name) xs × (last_index name i found xs ≡ found))
      ⊎ ((k : ℕ) × (element k xs ≡ returned name) × (last_index name i found xs ≡ i + k))
last_index_lem name i found [] = inl (tt, refl)
last_index_lem name i found (x ∷ xs) = elim (Bool-cases (str_eq x name)) [
  | inl y ↦ elim (last_index_lem name (suc i) i xs) [
    | inl (a, h) ↦ inr (0, ground (arith, eq_iff x name), ground arith)
    | inr (k, el, h) ↦ inr (suc k, el, ground arith)
  ]
  | inr n ↦ elim (last_index_lem name (suc i) found xs) [
    | inl (a, h) ↦ inl (ground (arith, eq_iff x name))
    | inr (k, el, h) ↦ inr (suc k, el, ground arith)
  ]
]

k_is : (k n : ℕ) → n ≡ 0 + k → k ≡ n
k_is k n h = omega (arith, h)

-- The level of a name is the index of the name in capitals among the levels, or 3, NOTICE, if it
-- is none of them.
pub level_of-element :
    (s : String)
    → (element (level_of s) levels ≡ returned (to_upper s))
      ⊎ (All (λ x. x ≢ to_upper s) levels × (level_of s ≡ 3))
unfolding level_of
level_of-element s = elim (last_index_lem (to_upper s) 0 3 levels) [
  | inl (a, h) ↦ inr (a, h)
  | inr (k, el, h) ↦
      inl (subst (λ n. element n levels ≡ returned (to_upper s)) (k_is k (level_of s) h) el)
]

element-bound : (n : ℕ) (xs : List String) (s : String) → element n xs ≡ returned s → n < length xs
element-bound n [] s h = cc
element-bound zero (x ∷ xs) s h = ground arith
element-bound (suc n) (x ∷ xs) s h = omega (arith, element-bound n xs s h)

pub level_of-bound : (s : String) → level_of s < 7
level_of-bound s = elim (level_of-element s) [
  | inl h ↦ element-bound (level_of s) levels (to_upper s) h
  | inr (a, h) ↦ omega (arith, h)
]

-- Each of the names, from the number `i` on, has its own number.
abbrev Numbered : ℕ → List String → Type 0
Numbered i [] = Unit
Numbered i (x ∷ xs) = (level_of x ≡ i) × Numbered (suc i) xs

levels-Numbered : Numbered 0 levels
unfolding level_of to_upper
levels-Numbered = (refl, (refl, (refl, (refl, (refl, (refl, (refl, tt)))))))

Numbered-element :
    (n i : ℕ) (xs : List String) (s : String)
    → Numbered i xs
    → element n xs ≡ returned s
    → level_of s ≡ i + n
Numbered-element n i [] s m h = cc
Numbered-element zero i (x ∷ xs) s (m, ms) h = ground arith
Numbered-element (suc n) i (x ∷ xs) s (m, ms) h =
    omega (arith, Numbered-element n (suc i) xs s ms h)

-- The name of each level has the level's number.
pub level_of-name : (n : ℕ) (s : String) → element n levels ≡ returned s → level_of s ≡ n
level_of-name n s h = omega (arith, Numbered-element n 0 levels s levels-Numbered h)
