-- ===== src/Config/Settled.antt =====
-- Settings that a document has, and how they stay when others are added.
use watched_back.Base.{
  ◌≡◌, sym, ◌∙◌, subst, String, Bool, true, false, str_eq, eq_iff, Bool-cases, inl, inr,
}
use watched_back.World.{Outcome, returned}
use watched_back.Json.{Jsoncpp}

-- `v[key] = x` puts `x` under the key, and leaves the other members alone.
pub record Sets (J : Jsoncpp) : Type 0 where
  pub at_set : (v x v' : J.Value) (k : String) → J.set v k x ≡ returned v' → J.at v' k ≡ returned x
  pub member_set :
      (v x v' : J.Value) (k : String) → J.set v k x ≡ returned v' → J.is_member v' k ≡ returned true
  pub at_other :
      (v x v' : J.Value) (k j : String)
      → J.set v k x ≡ returned v'
      → str_eq k j ≡ false
      → J.at v' j ≡ J.at v j
  pub member_other :
      (v x v' : J.Value) (k j : String)
      → J.set v k x ≡ returned v'
      → str_eq k j ≡ false
      → J.is_member v' j ≡ J.is_member v j

pub returned-injective :
    {A : Type 0} {a b : A} → ◌≡◌ {A = Outcome A} (returned a) (returned b) → a ≡ b
returned-injective h = cc

pub absurd_member : {A : Type 0} → ◌≡◌ {A = Outcome Bool} (returned true) (returned false) → A
absurd_member h = cc

module _ (J : Jsoncpp) where
  -- The document has the section, and the section the setting, which is read as `o`.
  abbrev pub HasSection : J.Value → String → Type 0
  HasSection doc section = J.is_member doc section ≡ returned true

  pub record Settled (doc : J.Value) (section key : String) (o : Outcome J.Value) : Type 0 where
    pub opened : HasSection doc section
    pub value : J.Value
    pub at : J.at doc section ≡ returned value
    pub member : J.is_member value key ≡ returned true
    pub holds : J.at value key ≡ o

  abbrev pub HasSetting : J.Value → String → String → Type 0
  HasSetting doc section key = (o : Outcome J.Value) × Settled doc section key o

  -- What the one document has, the other has too, and settings keep their value.
  pub record Grows (a b : J.Value) : Type 0 where
    pub sections : (s : String) → HasSection a s → HasSection b s
    pub settings : (s k : String) (o : Outcome J.Value) → Settled a s k o → Settled b s k o

  pub Grows-refl : (a : J.Value) → Grows a a
  Grows-refl a = record { sections = λ s h. h; settings = λ s k o h. h }

  pub Grows-trans : {a b c : J.Value} → Grows a b → Grows b c → Grows a c
  Grows-trans g h = record {
    sections = λ s x. h.sections s (g.sections s x);
    settings = λ s k o x. h.settings s k o (g.settings s k o x);
  }

  module _ (sets : Sets J) where
    -- A section that is replaced by one with all the settings that it had, if it had any.
    pub replace-Grows :
        (doc doc' new : J.Value) (section : String)
        → J.set doc section new ≡ returned doc'
        → ((k : String) (o : Outcome J.Value)
            → Settled doc section k o
            → (J.is_member new k ≡ returned true) × (J.at new k ≡ o))
        → Grows doc doc'
    replace-Grows doc doc' new section h more = record {
      sections = λ s has. elim (Bool-cases (str_eq section s)) [
        | inl same ↦
            subst (HasSection doc') ((eq_iff section s).0 same)
              (sets.member_set doc new doc' section h)
        | inr differs ↦ sets.member_other doc new doc' section s h differs ∙ has
      ];
      settings = λ s k o x. elim (Bool-cases (str_eq section s)) [
        | inl same ↦
            let e : section ≡ s = (eq_iff section s).0 same in
            let kept = more k o (subst (λ t. Settled doc t k o) (sym e) x) in
            subst (λ t. Settled doc' t k o) e
              record {
                opened = sets.member_set doc new doc' section h;
                value = new;
                at = sets.at_set doc new doc' section h;
                member = kept.0;
                holds = kept.1;
              }
        | inr differs ↦ record {
          opened = sets.member_other doc new doc' section s h differs ∙ x.opened;
          value = x.value;
          at = sets.at_other doc new doc' section s h differs ∙ x.at;
          member = x.member;
          holds = x.holds;
        }
      ];
    }

    -- A setting that is added to a section without it.
    pub set_more :
        (doc old new x : J.Value) (section key : String)
        → J.at doc section ≡ returned old
        → J.set old key x ≡ returned new
        → ((o : Outcome J.Value) → ¬ Settled doc section key o)
        → (k : String) (o : Outcome J.Value) → Settled doc section k o
        → (J.is_member new k ≡ returned true) × (J.at new k ≡ o)
    set_more doc old new x section key h h' fresh k o has = elim (Bool-cases (str_eq key k)) [
      | inl same ↦
          absurd (fresh o (subst (λ j. Settled doc section j o) (sym ((eq_iff key k).0 same)) has))
      | inr differs ↦
          let v : has.value ≡ old = returned-injective (sym has.at ∙ h) in
          (
            sets.member_other old x new key k h' differs
                ∙ subst (λ u. J.is_member u k ≡ returned true) v has.member,
            sets.at_other old x new key k h' differs ∙ subst (λ u. J.at u k ≡ o) v has.holds,
          )
    ]

    -- What the operations give: a document with the setting and with all that was there before.
    abbrev pub Adds : J.Value → String → String → J.Value → Type 0
    Adds doc section key doc' = Grows doc doc' × HasSetting doc' section key
