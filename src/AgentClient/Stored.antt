-- ===== src/AgentClient/Stored.antt =====
-- What `updateCounter` stores.
use watched_back.Base.{ℕ, String, ◌+◌, ◌≡◌, refl, ◌∙◌, ◌⊎◌, some, arith}
use watched_back.World.{World, Env, returned, add_event, executed}
use watched_back.Monad.{M, run, now}
use watched_back.Monad.Runs.{bind_run}
use watched_back.DbTools.{with_connection, grab}
use watched_back.Ressource.Samples.{TakesAll, my_exec_taken}
use watched_back.AgentClient.Counter.{failed_missing, counter_query, update_counter}

failed_missing_lem :
    (ok missing parse : ℕ)
    → let (f, m) = failed_missing ok missing parse in
      (f + m ≡ missing) × ((f ≡ 0) ⊎ ((m ≡ 0) × (ok ≡ 0)))
failed_missing_lem ok missing parse = ground arith

pub run-with_connection :
    {A : Type 0} (this : ℕ) (from : String) (o : A) (rest : M A) (c : ℕ) (e : Env) (w : World)
    → w.conn this ≡ some c
    → run (with_connection this from o rest) e w ≡ run rest e w
unfolding run with_connection grab
run-with_connection this from o rest c e w h = rw h refl

sent :
    (this id ok missing parse c : ℕ) (e : Env) (w : World)
    → w.conn this ≡ some c
    → TakesAll e
    → run (update_counter this id ok missing parse) e w ≡ (
      returned tt,
      add_event w
          (executed (counter_query id (e.now w.trace) (failed_missing ok missing parse) parse ok)),
    )
unfolding update_counter
sent this id ok missing parse c e w h t =
    run-with_connection this _ _ _ c e w h
    ∙ bind_run now _ e w w (e.now w.trace) (unfold run in refl)
    ∙ my_exec_taken e _ _ _ w t

-- A connected client, and a server that takes the statement: `updateCounter` sends exactly one
-- query, and in it the failed and the missing make up the requests that did not succeed. Any are
-- stored as failed only if no request succeeded, and then none are stored as missing.
pub update_counter-query :
    (this id ok missing parse c : ℕ) (e : Env) (w : World)
    → w.conn this ≡ some c
    → TakesAll e
    → let (f, m) = failed_missing ok missing parse in
      (run (update_counter this id ok missing parse) e w
        ≡ (returned tt, add_event w (executed (counter_query id (e.now w.trace) (f, m) parse ok))))
      × (f + m ≡ missing)
      × ((f ≡ 0) ⊎ ((m ≡ 0) × (ok ≡ 0)))
update_counter-query this id ok missing parse c e w h t =
    let (sum, or) = failed_missing_lem ok missing parse in
    (sent this id ok missing parse c e w h t, sum, or)
