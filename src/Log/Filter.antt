-- ===== src/Log/Filter.antt =====
-- Which lines `log::write` writes.
use watched_back.Base.{
  ℕ, suc, zero, ◌<◌, ◌≡◌, refl, ◌∙◌, String, List, [], ◌∷◌, Bool, none, some, arith, ltb,
  if◌then◌else◌, length, Bool-cases, inl, inr,
}
use watched_back.World.{returned, Env, World}
use watched_back.Monad.{run}
use watched_back.Json.{Jsoncpp}
use watched_back.Log.{levels, element, Log, line_text, write, construct}
use watched_back.Monad.Runs.{lift-bind, run-pure}
use watched_back.Monad.Gives.{Gives, bind-Gives, pure-Gives}
use watched_back.Log.Level.{level_of-bound}

-- The configuration names the file that is written to.
pub record NamesFile (J : Jsoncpp) (cfg : J.Value) : Type 0 where
  pub value : J.Value
  pub file : String
  pub item : J.at cfg "file" ≡ returned value
  pub as_string : J.as_string value ≡ returned file

-- The name of a level; none for a number that has none.
abbrev pub name_or_none : ℕ → List String → String
name_or_none n [] = ""
name_or_none zero (x ∷ xs) = x
name_or_none (suc n) (x ∷ xs) = name_or_none n xs

element_known :
    (n : ℕ) (xs : List String) → n < length xs → element n xs ≡ returned (name_or_none n xs)
element_known n [] h = absurd (omega (arith, h))
element_known zero (x ∷ xs) h = refl
element_known (suc n) (x ∷ xs) h = element_known n xs (omega (arith, h))

-- A log whose level is one of the seven, and whose configuration has a file's name that reads as a
-- text: whatever number `write` is given, it is returned from,
-- and no level's name is looked for past the end of the list. It writes one line, with the name
-- of the number, exactly if the number is at most the log's level.
pub write-line_text :
    (J : Jsoncpp) (l : Log J) (opens : Bool) (time : String) (lvl : ℕ) (src message : String)
    (e : Env) (w : World)
    → l.level < 7
    → NamesFile J l.cfg
    → run (write J l opens time lvl src message) e w ≡ (
      returned (
          if ltb l.level lvl
          then none
          else some (record {
            in_file = opens;
            text = line_text time (name_or_none lvl levels) src message;
          })),
      w,
    )
unfolding write
write-line_text J l opens time lvl src message e w b f = elim (Bool-cases (ltb l.level lvl)) [
  | inl y ↦ rw y (run-pure none e w)
  | inr n ↦ rw n (
      lift-bind (J.at l.cfg "file") _ e w f.value f.item
      ∙ lift-bind (J.as_string f.value) _ e w f.file f.as_string
      ∙ lift-bind (element lvl levels) _ e w _ (element_known lvl levels (ground arith))
      ∙ run-pure _ e w)
]

-- A log that the constructor makes, from whatever configuration: its level is one of the seven.
pub construct-bound :
    (J : Jsoncpp) (log_file : String) (cfg : J.Value) (e : Env) (w : World) (l : Log J)
    → (run (construct J log_file cfg) e w).0 ≡ returned l
    → l.level < 7
unfolding construct
construct-bound J log_file cfg e w l h = made.at w l h
  where
    made : Gives e (λ m. m.level < 7) (construct J log_file cfg)
    made = bind-Gives _ _ λ c. bind-Gives _ _ λ d. bind-Gives _ _ λ v.
        bind-Gives _ _
          λ lvl. bind-Gives _ _ λ name. bind-Gives _ _ λ x. pure-Gives _ (level_of-bound lvl)
