-- ===== src/Config/Adds.antt =====
-- What the operations on settings add to a document.
use watched_back.Base.{refl, sym, ◌∙◌, ap, String, List, [], ◌∷◌, All}
use watched_back.World.{Outcome, returned, Env}
use watched_back.Monad.{fold_m}
use watched_back.Monad.Gives.{
  Gives, pure-Gives, bind_with-Gives, implies-Gives, lift-Gives, if-Gives,
}
use watched_back.Json.{Jsoncpp}
use watched_back.Config.{put_setting, default_setting, first_setting, open_section}
use watched_back.Config.Settled.{
  Sets, returned-injective, absurd_member, HasSection, HasSetting, Settled, Grows, Grows-refl,
  Grows-trans, replace-Grows, set_more, Adds,
}

module _ (J : Jsoncpp) (sets : Sets J) {e : Env} where
  put_setting-Gives :
      (section : String) (doc : J.Value) (key : String) (x : J.Value)
      → ((o : Outcome J.Value) → ¬ Settled J doc section key o)
      → Gives e (Adds J sets doc section key) (put_setting J section doc key x)
  unfolding put_setting
  put_setting-Gives section doc key x fresh =
      bind_with-Gives _ _ (lift-Gives (J.at doc section)) λ old h.
        bind_with-Gives _ _ (lift-Gives (J.set old key x)) λ new k. record {
          at = λ w doc' r.
              let set = (lift-Gives (J.set doc section new)).at w doc' r in
              (
                replace-Grows J sets doc doc' new section set
                    (set_more J sets doc old new x section key h k fresh),
                (
                  returned x,
                  record {
                    opened = sets.member_set doc new doc' section set;
                    value = new;
                    at = sets.at_set doc new doc' section set;
                    member = sets.member_set old x new key k;
                    holds = sets.at_set old x new key k;
                  },
                ),
              );
        }

  pub default_setting-Gives :
      (section : String) (doc : J.Value) (setting : String × J.Value)
      → HasSection J doc section
      → Gives e (Adds J sets doc section setting.0) (default_setting J section doc setting)
  unfolding default_setting
  default_setting-Gives section doc (key, x) has =
      bind_with-Gives _ _ (lift-Gives (J.at doc section)) λ old h.
        bind_with-Gives _ _ (lift-Gives (J.is_member old key)) λ there k.
          if-Gives there _ _
            (λ yes. pure-Gives doc (
              Grows-refl J doc,
              (
                J.at old key,
                record {
                  opened = has;
                  value = old;
                  at = h;
                  member = k ∙ ap returned yes;
                  holds = refl;
                },
              ),
            ))
            (λ no_such. put_setting-Gives section doc key x λ o has. absurd_member (
              sym has.member
              ∙ ap (λ u. J.is_member u key) (returned-injective (sym has.at ∙ h))
              ∙ k
              ∙ ap returned no_such))

  pub first_setting-Gives :
      (section : String) (doc : J.Value) (setting : String × J.Value)
      → Gives e (Adds J sets doc section setting.0) (first_setting J section doc setting)
  unfolding first_setting
  first_setting-Gives section doc (key, x) =
      bind_with-Gives _ _ (lift-Gives (J.is_member doc section)) λ there h.
        if-Gives there _ _ (λ has. default_setting-Gives section doc (key, x) (h ∙ ap returned has))
          (λ hasnt.
            put_setting-Gives section doc key x
              λ o had. absurd_member (sym had.opened ∙ h ∙ ap returned hasnt))

  pub open_section-Gives :
      (section : String) (doc : J.Value)
      → Gives e (λ doc'. Grows J doc doc' × HasSection J doc' section) (open_section J section doc)
  unfolding open_section
  open_section-Gives section doc =
      bind_with-Gives _ _ (lift-Gives (J.is_member doc section)) λ there h.
        if-Gives there _ _ (λ has. pure-Gives doc (Grows-refl J doc, h ∙ ap returned has))
          λ hasnt. record {
            at = λ w doc' r.
                let set = (lift-Gives (J.set doc section J.empty_object)).at w doc' r in
                (
                  replace-Grows J sets doc doc' J.empty_object section set
                      λ k o had. absurd_member (sym had.opened ∙ h ∙ ap returned hasnt),
                  sets.member_set doc J.empty_object doc' section set,
                );
          }

  -- The settings of a section, one after another.
  pub settings-Gives :
      (section : String) (settings : List (String × J.Value)) (doc : J.Value)
      → HasSection J doc section
      → Gives e
          (λ doc'. Grows J doc doc' × All (λ (key, x). HasSetting J doc' section key) settings)
          (fold_m settings doc (default_setting J section))
  unfolding fold_m
  settings-Gives section [] doc has = pure-Gives doc (Grows-refl J doc, tt)
  settings-Gives section ((key, x) ∷ settings) doc has =
      bind_with-Gives _ _ (default_setting-Gives section doc (key, x) has) λ doc1 (g, (o, settled)).
        implies-Gives (settings-Gives section settings doc1 settled.opened)
          λ doc2 (g', all). (Grows-trans J g g', ((o, g'.settings section key o settled), all))
