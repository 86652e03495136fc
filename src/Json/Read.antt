-- ===== src/Json/Read.antt =====
-- Members of JSON objects, read in one go: `v[key].asString()` and its kind.
use watched_back.Base.{ℕ, ℤ, String, List, [], ◌∷◌}
use watched_back.Double.{Double}
use watched_back.World.{Outcome}
use watched_back.Monad.{M, pure, lift, ◌>>=◌}
use watched_back.Json.{Jsoncpp}

module _ (J : Jsoncpp) where
  abbrev pub read_at : {A : Type 0} → (J.Value → Outcome A) → J.Value → String → M A
  read_at conversion v key = do member ← lift (J.at v key); lift (conversion member)

  abbrev pub string_at : J.Value → String → M String
  string_at v key = read_at J.as_string v key

  abbrev pub c_string_at : J.Value → String → M String
  c_string_at v key = read_at J.as_c_string v key

  abbrev pub uint_at : J.Value → String → M ℕ
  uint_at v key = read_at J.as_uint v key

  abbrev pub int_at : J.Value → String → M ℤ
  int_at v key = read_at J.as_int v key

  abbrev pub double_at : J.Value → String → M Double
  double_at v key = read_at J.as_double v key

  -- The value of `v[k1][k2]…`; the null members that it adds to `v` where some are missing are left out.
  unfoldable pub walk : J.Value → List String → M J.Value
  walk v [] = pure v
  walk v (k ∷ ks) = do member ← lift (J.at v k); walk member ks
