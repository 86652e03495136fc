-- ===== src/Base/Text.antt =====
-- `std::string` as a text of characters: `substr`, `rfind`, `find`, `getline`, `std::to_string`.
-- A position counts characters, which are the bytes of an ASCII text.
use Prim.Native.Nat.{ℕ, zero, suc, ◌-◌, ◌/◌, ◌%◌}
use Prim.Native.Char.{code}
use Prim.Native.String.{String, ◌++◌ as ◌<>◌}
use mathlib.Core.Option.{Option, none, some}
use mathlib.Core.List.{List, [], ◌∷◌}
use watched_back.Base.Tests.{ltb, leb, ◌==◌, if◌then◌else◌}

abbrev pub size : String → ℕ
size String.[] = 0
size (String.◌∷◌ c s) = suc (size s)

-- `s.substr(0, n)`
abbrev pub take_text : ℕ → String → String
take_text zero s = String.[]
take_text (suc n) String.[] = String.[]
take_text (suc n) (String.◌∷◌ c s) = String.◌∷◌ c (take_text n s)

-- What follows the first `n` characters.
abbrev pub drop_text : ℕ → String → String
drop_text zero s = s
drop_text (suc n) String.[] = String.[]
drop_text (suc n) (String.◌∷◌ c s) = drop_text n s

-- `s.substr(from, count)`; `none` is the `std::out_of_range` of a start past the end. A `count`
-- of `none` is `npos`.
abbrev pub substr : String → ℕ → Option ℕ → Option String
substr s from none = if leb from (size s) then some (drop_text from s) else none
substr s from (some n) = if leb from (size s) then some (take_text n (drop_text from s)) else none

-- `s.find(c)`, for a character given by its code; `none` is `npos`.
abbrev pub find : ℕ → String → Option ℕ
find c String.[] = none
find c (String.◌∷◌ d s) =
    if code d == c then some 0 else elim (find c s) [ none ↦ none | some i ↦ some (suc i) ]

-- `s.rfind(c)`
abbrev pub rfind : ℕ → String → Option ℕ
rfind c String.[] = none
rfind c (String.◌∷◌ d s) = elim (rfind c s) [
  | some i ↦ some (suc i)
  | none ↦ if code d == c then some 0 else none
]

-- The pieces that `while (getline(in, s, c))` reads: a separator at the end begins no piece.
abbrev pub split_on : ℕ → String → String → List String
split_on c String.[] String.[] = []
split_on c (String.◌∷◌ p piece) String.[] = String.◌∷◌ p piece ∷ []
split_on c piece (String.◌∷◌ d s) =
    let more = split_on c (piece <> String.◌∷◌ d String.[]) s in
    let next = split_on c String.[] s in if code d == c then piece ∷ next else more

abbrev digit : ℕ → String
digit d =
    if d == 0
    then "0"
    else if d == 1
    then "1"
    else if d == 2
    then "2"
    else if d == 3
    then "3"
    else if d == 4
    then "4"
    else if d == 5
    then "5"
    else if d == 6
    then "6"
    else if d == 7
    then "7"
    else if d == 8
    then "8"
    else "9"

decimal : ℕ → ℕ → String → String
decimal zero n rest = rest
decimal (suc fuel) n rest =
    let more = decimal fuel (n / 10) (digit (n % 10) <> rest) in
    if ltb n 10 then digit n <> rest else more

-- `std::to_string` of an unsigned number: `n + 1` rounds are more than it has digits.
unfoldable pub to_string : ℕ → String
unfolding decimal
to_string n = decimal (suc n) n ""

-- Blanks in front, as `std::setw` writes them.
abbrev pub spaces : ℕ → String
spaces zero = ""
spaces (suc n) = " " <> spaces n

unfoldable pub setw : ℕ → String → String
setw width s = spaces (width - size s) <> s

in_place : String → String → ℕ → String → String
in_place (String.◌∷◌ a lows) (String.◌∷◌ b ups) c other =
    let later = in_place lows ups c other in if code a == c then String.◌∷◌ b String.[] else later
in_place _ _ c other = other

-- `std::transform` by `std::toupper`, in the C locale.
unfoldable pub to_upper : String → String
unfolding in_place
to_upper String.[] = String.[]
to_upper (String.◌∷◌ c s) =
    in_place "abcdefghijklmnopqrstuvwxyz" "ABCDEFGHIJKLMNOPQRSTUVWXYZ" (code c)
      (String.◌∷◌ c String.[])
    <> to_upper s

-- A text put together by `+`.
abbrev pub joined : List String → String
joined [] = ""
joined (s ∷ ss) = s <> joined ss
