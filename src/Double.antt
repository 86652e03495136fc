-- ===== src/Double.antt =====
-- The `double` values of the backend. Every finite double is a whole number of units of 2^-1074,
-- which the model keeps; JSON and the database hold no other value.
use watched_back.Base.{ℕ, zero, suc, ◌+◌, ◌-◌, ◌*◌, ◌/◌, ◌%◌, ◌^◌, String, ◌<>◌, Bool, not}
use watched_back.Base.{ℤ, pos, negsuc, lt_ℤ, eq_ℤ, ◌+ℤ◌, ltb, ◌==◌, if◌then◌else◌, size, to_string}

pub record Double : Type 0 where
  pub units : ℤ

abbrev pub double_lt : Double → Double → Bool
double_lt a b = lt_ℤ a.units b.units

abbrev pub double_eq : Double → Double → Bool
double_eq a b = eq_ℤ a.units b.units

abbrev pub double_le : Double → Double → Bool
double_le a b = not (double_lt b a)

-- One, in units.
one : ℕ
one = 2 ^ 1074

magnitude : ℤ → ℕ
magnitude (pos n) = n
magnitude (negsuc n) = suc n

with_sign : ℤ → String → String
with_sign (pos n) s = s
with_sign (negsuc n) s = "-" <> s

zeros : ℕ → String
zeros n =
    if n == 0
    then ""
    else if n == 1
    then "0"
    else if n == 2
    then "00"
    else if n == 3
    then "000"
    else if n == 4
    then "0000"
    else "00000"

-- Millionths, rounded to the nearest, and to the even one of two.
millionths : ℕ → ℕ
unfolding one
millionths n =
    let scaled = n * 1_000_000 in
    let q = scaled / one in
    let twice_rest = scaled % one * 2 in
    if ltb one twice_rest then q + 1 else if twice_rest == one then q + q % 2 else q

-- `std::to_string`, the format `%f`.
unfoldable pub double_to_string : Double → String
unfolding magnitude with_sign zeros millionths to_string
double_to_string d =
    let m = millionths (magnitude d.units) in
    let part = to_string (m % 1_000_000) in
    with_sign d.units (to_string (m / 1_000_000) <> ("." <> (zeros (6 - size part) <> part)))

toward_zero : ℤ → ℤ
unfolding one
toward_zero (pos n) = pos (n - n % one)
toward_zero (negsuc n) = if ltb (suc n) one then pos 0 else negsuc (suc n - suc n % one - 1)

-- `trunc`
unfoldable pub trunc : Double → Double
unfolding toward_zero
trunc d = record { units = toward_zero d.units }

unfoldable pub of_ℕ : ℕ → Double
unfolding one
of_ℕ n = record { units = pos (n * one) }

-- How often a number is halved until it has no more than the 53 bits of a significand. A finite
-- double is below 2^2098, so that 2048 rounds are enough.
excess : ℕ → ℕ → ℕ
excess zero n = 0
excess (suc fuel) n = let more = excess fuel (n / 2) in if ltb n (2 ^ 53) then 0 else suc more

-- The nearest number of 53 bits, and the even one of two.
nearest : ℕ → ℕ
unfolding excess
nearest n =
    let scale = 2 ^ excess 2048 n in
    let q = n / scale in
    let twice_rest = n % scale * 2 in
    if ltb scale twice_rest
    then (q + 1) * scale
    else if twice_rest == scale
    then (q + q % 2) * scale
    else q * scale

rounded : ℤ → ℤ
unfolding nearest
rounded (pos n) = pos (nearest n)
rounded (negsuc n) = negsuc (nearest (suc n) - 1)

-- `a + b`, rounded to the nearest. A sum past the largest double is not modelled.
unfoldable pub double_add : Double → Double → Double
unfolding rounded
double_add a b = record { units = rounded (a.units +ℤ b.units) }
