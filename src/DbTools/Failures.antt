-- ===== src/DbTools/Failures.antt =====
-- What the lookups of src/dbTools.cpp do when the pool or the server fails.
use watched_back.Base.{ℕ, ◌≡◌, refl, String, none, some, [], ◌∷◌, false, Bool, arith}
use watched_back.World.{
  Query, bad_query, json_runtime_error, std_exception, Outcome, returned, threw, undefined, Env,
  World, Trace, stored,
}
use watched_back.Monad.{M, run, ◌>>=◌, my_exec, cases}
use watched_back.DbTools.{found_id, first_answer, with_connection, grab, ensured}
use watched_back.DbTools.Have.{count_host, have_host}
use watched_back.DbTools.Get.{insert_host, select_host, get_host}
use watched_back.DbTools.Table.{ReadsNumbers, one_cell, counted_row}

-- The statement throws, or reports that it failed.
abbrev pub IsRefused : Outcome Bool → Type 0
IsRefused (returned done) = done ≡ false
IsRefused (threw x) = Unit
IsRefused undefined = ⊥

found_id_empty :
    (q : Query) (from msg : String) (e : Env) (w : World)
    → e.store w.trace q ≡ returned (some [])
    → (run (found_id q from msg) e w).0 ≡ undefined
unfolding run found_id first_answer
found_id_empty q from msg e w s = ground arith

-- A refused statement is logged, and the run goes on.
my_exec_refused :
    (q : Query) (from msg : String) (e : Env) (w : World) (r : Outcome Bool)
    → e.exec w.trace q ≡ r
    → IsRefused r
    → run (my_exec q from msg) e w ≡ (returned tt, (run (my_exec q from msg) e w).1)
unfolding run
my_exec_refused q from msg e w (returned done) x f = ground arith
my_exec_refused q from msg e w (threw (bad_query s)) x f = ground arith
my_exec_refused q from msg e w (threw (json_runtime_error s)) x f = ground arith
my_exec_refused q from msg e w (threw (std_exception s)) x f = ground arith
my_exec_refused q from msg e w undefined x f = absurd f

-- The rest of `ensured` once its insert has been refused.
ensured_refused :
    (this : ℕ) (from : String) (have : M Bool) (insert : Query) (insert_msg : String)
    (select : Query) (select_msg : String) (e : Env) (w w' v : World) (c : ℕ)
    → w.conn this ≡ some c
    → run have e w ≡ (returned false, w')
    → run (my_exec insert from insert_msg) e w' ≡ (returned tt, v)
    → (run (found_id select from select_msg) e v).0 ≡ undefined
    → (run (ensured this from have insert insert_msg select select_msg) e w).0 ≡ undefined
unfolding ◌>>=◌ run ensured with_connection grab cases
ensured_refused this from have insert insert_msg select select_msg e w w' v c h t x u = ground arith

-- Where the server refuses to insert a new host (by an exception or by `false`) and then finds no
-- row for it, `getHost` reads the first row of an empty result, which is undefined behaviour.
pub get_host_refused :
    (e : Env) (w : World) (this c : ℕ) (name : String)
    → ReadsNumbers e
    → w.conn this ≡ some c
    → e.store w.trace (count_host name) ≡ one_cell "0"
    → IsRefused (e.exec (stored (count_host name) ∷ w.trace) (insert_host name))
    → ((t : Trace) → e.store t (select_host name) ≡ returned (some []))
    → (run (get_host this name) e w).0 ≡ undefined
unfolding get_host have_host
get_host_refused e w this c name reads h z r empty =
    ensured_refused this _ _ (insert_host name) _ (select_host name) _ e w _ _ c h
      (counted_row reads w this _ (count_host name) _ c none h z)
      (my_exec_refused (insert_host name) "dbTools::getHost" _ e _ _ refl r)
      (found_id_empty _ _ _ e _ (empty _))
