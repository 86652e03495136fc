-- ===== src/Log.antt =====
-- `log` of src/log.cpp: the level that the configuration asks for, and the lines that pass it. The
-- time's text is an argument, since `strftime` writes it.
pub mod Level
pub mod Filter
pub mod Saved
mod Tests
use watched_back.Base.{
  ℕ, zero, suc, String, ◌<>◌, Bool, Option, none, some, List, [], ◌∷◌, str_eq, ltb, if◌then◌else◌,
  to_upper, setw,
}
use watched_back.World.{Outcome, returned, undefined}
use watched_back.Monad.{M, pure, lift, ◌>>=◌}
use watched_back.Json.{Jsoncpp}

-- `log::levels`
abbrev pub levels : List String
levels = "NONE" ∷ "ERROR" ∷ "WARN" ∷ "NOTICE" ∷ "INFO" ∷ "DEBUG" ∷ "ALL" ∷ []

-- `v[n]`, which is undefined past the end.
abbrev pub element : ℕ → List String → Outcome String
element n [] = undefined
element zero (x ∷ xs) = returned x
element (suc n) (x ∷ xs) = element n xs

-- The loop over the levels: the index of the last that has the name.
abbrev pub last_index : String → ℕ → ℕ → List String → ℕ
last_index name i found [] = found
last_index name i found (x ∷ xs) = last_index name (suc i) (if str_eq x name then i else found) xs

-- The level of a name, in any case; NOTICE for a name that is none of them.
unfoldable pub level_of : String → ℕ
level_of name = last_index (to_upper name) 0 3 levels

pub record Line : Type 0 where
  pub in_file : Bool
  pub text : String

-- `log::write`, once the number's name is known.
abbrev pub line_text : String → String → String → String → String
line_text time level src message =
    "[ "
    <> (time
        <> (" | " <> (setw 6 level <> (" ] " <> (setw 30 src <> (" - " <> (message <> "\n")))))))

module _ (J : Jsoncpp) where
  pub record Log : Type 0 where
    pub cfg : J.Value
    pub level : ℕ

  -- `if (!cfg->isMember(key)) (*cfg)[key] = value`
  unfoldable pub with_default : String → String → J.Value → M J.Value
  with_default key value cfg = do
    there ← lift (J.is_member cfg key)
    if there then pure cfg else lift (J.set cfg key (J.of_string value))

  -- `log::log`
  unfoldable pub construct : String → J.Value → M Log
  construct log_file cfg = do
    c ← with_default "file" log_file cfg
    d ← with_default "level" "NOTICE" c
    v ← lift (J.at d "level")
    lvl ← lift (J.as_string v)
    name ← lift (element (level_of lvl) levels)
    e ← lift (J.set d "level" (J.of_string name))
    pure (record { cfg = e; level = level_of lvl })

  -- `log::write` of a number. `opens` says whether the file can be opened.
  unfoldable pub write : Log → Bool → String → ℕ → String → String → M (Option Line)
  write l opens time lvl src message = if ltb l.level lvl then pure none else (do
    v ← lift (J.at l.cfg "file")
    _ ← lift (J.as_string v)
    name ← lift (element lvl levels)
    pure (some (record { in_file = opens; text = line_text time name src message })))

  -- `log::write` of a level's name.
  unfoldable pub write_named : Log → Bool → String → String → String → String → M (Option Line)
  write_named l opens time lvl src message = write l opens time (level_of lvl) src message
