-- ===== src/Ressource/Opening.antt =====
-- The open events of a client stay distinct while it parses samples.
use watched_back.Base.{ℕ, String, true, ◌∷◌, ap, sym, ◌∙◌, refl, ◌<◌, ◌≡◌, ltb, arith}
use watched_back.World.{Query, Trace, Env, World, returned, executed, add_event}
use watched_back.Monad.{M, run, insert_id, my_exec, ◌>>=◌, ◌>>◌}
use watched_back.Monad.Runs.{bind_run}
use watched_back.Ressource.Samples.{TakesAll, my_exec_taken}
use watched_back.Monad.Gives.{
  Gives, pure-Gives, bind-Gives, bind_with-Gives, if-Gives, cases-Gives, fold_m-Gives,
}
use watched_back.Json.{Jsoncpp}
use watched_back.Alerter.{ResEvent}
use watched_back.Ressource.{Ressource, State, find_event}
use watched_back.Ressource.Rules.{Distinct, find_event-eq-zero, put_event-Distinct}
use watched_back.Ressource.Parse.{Manager, fire, check_rule, parse_line, parse}

-- The server takes every statement, and numbers the rows that it inserts from 1: `insert_id` is asked
-- behind the statement.
pub record NumbersRows (e : Env) : Type 0 where
  pub takes : (t : Trace) (q : Query) → e.exec t q ≡ returned true
  pub positive : (t : Trace) (q : Query) → 0 < e.insert_id (executed q ∷ t) q

pub record IsDistinct (s : State) : Type 0 where
  pub events : Distinct s.current_events

-- A row that is inserted, and what follows with its number.
insert-Gives :
    {e : Env} {A : Type 0} {Q : A → Type 0} (q : Query) (from msg : String) (k : ℕ → M A)
    → NumbersRows e
    → ((id : ℕ) → 0 < id → Gives e Q (k id))
    → Gives e Q (my_exec q from msg >> (insert_id q >>= k))
insert-Gives {e} q from msg k n g = record {
  at = λ w a h.
      let t : TakesAll e = record { takes = n.takes } in
      let id = e.insert_id (executed q ∷ w.trace) q in
      let v = add_event w (executed q) in
      (g id (n.positive w.trace q)).at v a (
        ap (λ x. x.0)
          (sym (
            bind_run (my_exec q from msg) _ e w v tt (my_exec_taken e q from msg w t)
            ∙ bind_run (insert_id q) k e v v id (unfold run in refl)))
        ∙ h);
}

module _ (J : Jsoncpp) (r : Ressource) (alert : Manager) (line : J.Value) {e : Env}
    (n : NumbersRows e) where
  fire-Gives :
      (s : State) (rule : ResEvent) (v : J.Value)
      → IsDistinct s
      → Gives e IsDistinct (fire J r alert line s rule v)
  unfolding fire
  fire-Gives s rule v d =
      if-Gives (ltb 0 (find_event rule 0 s.current_events)) _ _
        (λ old. bind-Gives _ _ λ current. bind-Gives _ _ λ _. pure-Gives s d)
        (λ new. bind-Gives _ _ λ time. bind-Gives _ _ λ ts. bind-Gives _ _ λ current.
          insert-Gives _ _ _ _ n λ id p. bind-Gives _ _ λ value. bind-Gives _ _ λ _.
            pure-Gives _ (record {
              events =
                  put_event-Distinct rule id s.current_events p
                    (find_event-eq-zero rule s.current_events d.events (ground arith)) d.events;
            }))

  check_rule-Gives :
      (s : State) (rule : ResEvent)
      → IsDistinct s
      → Gives e IsDistinct (check_rule J r alert line s rule)
  unfolding check_rule
  check_rule-Gives s rule d = bind-Gives _ _ λ sample. cases-Gives sample _ _ (pure-Gives s d) λ v.
      bind-Gives _ _ λ trig. if-Gives trig _ _ (λ _. fire-Gives s rule v d) (λ _. pure-Gives s d)

  parse_line-Gives : (s : State) → IsDistinct s → Gives e IsDistinct (parse_line J r alert line s)
  unfolding parse_line
  parse_line-Gives s d =
      bind_with-Gives _ _ (fold_m-Gives s.event_factory s _ d check_rule-Gives)
        λ s' d'. bind-Gives _ _ λ _. bind-Gives _ _ λ values. bind-Gives _ _ λ _. pure-Gives s' d'

-- Over a server that takes every statement and numbers the rows from 1: if no two open events of a
-- client are equal, and none has the id 0, the same holds in each state that `parse` returns, whatever
-- the samples, the rules and the server's answers to queries. So a rule that keeps being broken does
-- not open its event twice.
pub parse-IsDistinct :
    (J : Jsoncpp) (r : Ressource) (alert : Manager) (samples : J.Value) (e : Env) (w : World)
    (s s' : State)
    → NumbersRows e
    → IsDistinct s
    → (run (parse J r alert samples s) e w).0 ≡ returned s'
    → IsDistinct s'
unfolding parse
parse-IsDistinct J r alert samples e w s s' n d h =
    (fold_m-Gives (J.elements samples) s _ d (λ s line. parse_line-Gives J r alert line n s)).at w
      s' h
