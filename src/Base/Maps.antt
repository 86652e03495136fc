-- ===== src/Base/Maps.antt =====
-- `std::map` as a list of keys and values in the order of the keys.
use Prim.Native.Char.{code}
use Prim.Native.String.{String}
use mathlib.Core.Path.{◌≡◌}
use mathlib.Core.Bool.{Bool, true, false, ◌||◌, ◌&&◌}
use mathlib.Core.Option.{Option, none, some}
use mathlib.Core.List.{List, [], ◌∷◌}
use native.Mathlib.Omega.{arith}
use text.Mathlib.Text.{◌==◌ as str_eq}
use text.Mathlib.TextEquality.{eq_iff}
use text.Mathlib.TextPositions.{eq_refl}
use watched_back.Base.Tests.{ltb, ◌==◌, if◌then◌else◌}

-- `operator<` of `std::string`: the order of the characters' codes.
abbrev pub text_lt : String → String → Bool
text_lt s String.[] = false
text_lt String.[] (String.◌∷◌ d t) = true
text_lt (String.◌∷◌ c s) (String.◌∷◌ d t) = ltb (code c) (code d) || code c == code d && text_lt s t

module _ {ℓ} {A : Type ℓ} where
  -- `m.find(k)`
  abbrev pub lookup : List (String × A) → String → Option A
  lookup [] k = none
  lookup ((j, a) ∷ m) k = if str_eq j k then some a else lookup m k

  -- `m[k] = a`
  abbrev pub put : List (String × A) → String → A → List (String × A)
  put [] k a = (k, a) ∷ []
  put ((j, b) ∷ m) k a =
      let rest = put m k a in
      if str_eq j k then (j, a) ∷ m else if text_lt k j then (k, a) ∷ (j, b) ∷ m else (j, b) ∷ rest

  pub lookup-put : (m : List (String × A)) (k : String) (a : A) → lookup (put m k a) k ≡ some a
  lookup-put [] k a = rw eq_refl
  lookup-put ((j, b) ∷ m) k a = ground (arith, eq_refl k, eq_refl j, eq_iff j k, lookup-put m k a)

  pub lookup-put_other :
      (m : List (String × A)) (k j : String) (a : A)
      → str_eq k j ≡ false
      → lookup (put m k a) j ≡ lookup m j
  lookup-put_other [] k j a h = rw h
  lookup-put_other ((i, b) ∷ m) k j a h =
      ground (arith, eq_refl k, eq_iff i k, eq_iff i j, eq_iff k j, lookup-put_other m k j a h)
