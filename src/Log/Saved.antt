-- ===== src/Log/Saved.antt =====
-- The section of the log after the constructor has completed it.
use watched_back.Base.{
  ◌≡◌, refl, sym, ◌∙◌, ap, String, true, false, str_eq, Bool-cases, inl, inr, eq_iff,
}
use watched_back.World.{returned, Env}
use watched_back.Monad.Gives.{
  Gives, pure-Gives, bind_with-Gives, implies-Gives, lift-Gives, if-Gives,
}
use watched_back.Json.{Jsoncpp}
use watched_back.Log.{Log, levels, element, level_of, with_default, construct}
use watched_back.Config.Settled.{Sets, returned-injective, absurd_member}

module _ (J : Jsoncpp) where
  -- A member that stays under its key.
  abbrev pub Stays : J.Value → J.Value → String → Type 0
  Stays a b k =
      J.is_member a k ≡ returned true → (J.is_member b k ≡ returned true) × (J.at b k ≡ J.at a k)

  -- The section has the name of the level in use, which is the one that it asked for, if it did, and
  -- every other member that it had.
  pub record Completed (cfg : J.Value) (l : Log J) : Type 0 where
    pub name : String
    pub member : J.is_member l.cfg "level" ≡ returned true
    pub at : J.at l.cfg "level" ≡ returned (J.of_string name)
    pub level : element l.level levels ≡ returned name
    pub asked :
        (v : J.Value)
        → J.is_member cfg "level" ≡ returned true
        → J.at cfg "level" ≡ returned v
        → (s : String) × (J.as_string v ≡ returned s) × (l.level ≡ level_of s)
    pub stays : (k : String) → str_eq "level" k ≡ false → Stays cfg l.cfg k

  pub Stays-trans : (a b c : J.Value) (k : String) → Stays a b k → Stays b c k → Stays a c k
  Stays-trans a b c k h h' has = let (m, at) = h has in let (m', at') = h' m in (m', at' ∙ at)

  module _ (sets : Sets J) where
    set-Stays :
        (a x b : J.Value) (key k : String)
        → J.set a key x ≡ returned b
        → str_eq key k ≡ false
        → Stays a b k
    set-Stays a x b key k h differs has =
        (sets.member_other a x b key k h differs ∙ has, sets.at_other a x b key k h differs)

    -- A member that was not there before.
    set-Stays_new :
        (a x b : J.Value) (key k : String)
        → J.set a key x ≡ returned b
        → J.is_member a key ≡ returned false
        → Stays a b k
    set-Stays_new a x b key k h fresh has = elim (Bool-cases (str_eq key k)) [
      | inl same ↦
          absurd_member (sym has ∙ ap (J.is_member a) (sym ((eq_iff key k).0 same)) ∙ fresh)
      | inr differs ↦ set-Stays a x b key k h differs has
    ]

    module _ {e : Env} where
      pub with_default-Gives :
          (key value : String) (cfg : J.Value)
          → Gives e (λ c. (k : String) → Stays cfg c k) (with_default J key value cfg)
      unfolding with_default
      with_default-Gives key value cfg =
          bind_with-Gives _ _ (lift-Gives (J.is_member cfg key)) λ there h.
            if-Gives there _ _ (λ _. pure-Gives cfg λ k has. (has, refl))
              λ hasnt.
                implies-Gives (lift-Gives (J.set cfg key (J.of_string value)))
                  λ c s k. set-Stays_new cfg (J.of_string value) c key k s (h ∙ ap returned hasnt)

      pub construct-Completed :
          (log_file : String) (cfg : J.Value) → Gives e (Completed cfg) (construct J log_file cfg)
      unfolding construct
      construct-Completed log_file cfg =
          bind_with-Gives _ _ (with_default-Gives "file" log_file cfg) λ c keeps.
            bind_with-Gives _ _ (with_default-Gives "level" "NOTICE" c) λ d keeps'.
              bind_with-Gives _ _ (lift-Gives (J.at d "level")) λ v at_level.
                bind_with-Gives _ _ (lift-Gives (J.as_string v)) λ lvl text.
                  bind_with-Gives _ _ (lift-Gives (element (level_of lvl) levels)) λ name named.
                    bind_with-Gives _ _ (lift-Gives (J.set d "level" (J.of_string name))) λ l set.
                      pure-Gives _ record {
                        name = name;
                        member = sets.member_set d (J.of_string name) l "level" set;
                        at = sets.at_set d (J.of_string name) l "level" set;
                        level = named;
                        asked = λ v' has at_cfg.
                            let (m, at) =
                              Stays-trans cfg c d "level" (keeps "level") (keeps' "level") has in
                            let same : v ≡ v' = returned-injective (sym at_level ∙ at ∙ at_cfg) in
                            (lvl, ap J.as_string (sym same) ∙ text, refl);
                        stays = λ k differs.
                            Stays-trans cfg d l k (Stays-trans cfg c d k (keeps k) (keeps' k))
                              (set-Stays d (J.of_string name) l "level" k set differs);
                      }
