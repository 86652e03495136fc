-- ===== src/Binding.antt =====
-- The template queries of mysql++: a placeholder is `%`, a number, letters such as `q`, and a name
-- behind a colon. A query is bound if each placeholder has a default under its own name, which is
-- enough for mysql++; what it does with a name that the template lacks is not looked at.
use Prim.Native.Char.{code}
use watched_back.Base.{
  ℕ, String, ◌<>◌, Bool, true, false, ◌&&◌, ◌||◌, List, [], ◌∷◌, leb, ◌==◌, str_eq, if◌then◌else◌,
}
use watched_back.World.{Param, Query}

-- Where the scan stands.
pub data Scan : Type 0 where
  outside number name : Scan

is_digit : ℕ → Bool
is_digit c = leb b'0' c && leb c b'9'

is_letter : ℕ → Bool
is_letter c = leb b'a' c && leb c b'z' || leb b'A' c && leb c b'Z'

is_word : ℕ → Bool
unfolding is_digit is_letter
is_word c = is_digit c || is_letter c || c == b'_'

-- The names of a template's placeholders, in order. `read` is the part of a name behind the scan.
names : Scan → String → String → List String
unfolding is_digit is_letter is_word
names name read String.[] = read ∷ []
names _ read String.[] = []
names outside read (String.◌∷◌ c s) = names (if code c == b'%' then number else outside) "" s
names number read (String.◌∷◌ c s) =
    names
      (if is_digit (code c) || is_letter (code c)
        then number
        else if code c == b':'
        then name
        else outside)
      "" s
names name read (String.◌∷◌ c s) =
    let more = names name (read <> String.◌∷◌ c String.[]) s in
    let next = names (if code c == b'%' then number else outside) "" s in
    if is_word (code c) then more else read ∷ next

abbrev has_default : List (String × Param) → String → Bool
has_default [] n = false
has_default ((k, _) ∷ ds) n = str_eq k n || has_default ds n

all_have : List (String × Param) → List String → Bool
all_have ds [] = true
all_have ds (n ∷ ns) = has_default ds n && all_have ds ns

unfoldable pub is_bound : Query → Bool
unfolding names all_have
is_bound q = all_have q.defaults (names outside "" q.template)
