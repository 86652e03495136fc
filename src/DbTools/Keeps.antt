-- ===== src/DbTools/Keeps.antt =====
-- What an invariant of the world needs so that every operation of `dbTools` keeps it, given what
-- it says of the connections.
use watched_back.Base.{ℕ, String, Bool}
use watched_back.World.{Query, Row, World, stored, executed}
use watched_back.Monad.{M}
use watched_back.Monad.Keeps.{Keeps, AllowsLog, Allows, query_rules}
use watched_back.DbTools.{
  grab, release, with_connection, first_answer, is_positive, as_id, as_text, counted, found_id,
  found_name, ensured,
}

-- Each object may give its connection back.
pub record Releases (P : World → Type 0) : Type 0 where
  pub each : (this : ℕ) → Keeps P (release this)

-- An invariant that admits log lines, and what `grab` does for each object.
pub record Tolerates (P : World → Type 0) : Type 0 where
  pub log : AllowsLog P
  pub grabs : (this : ℕ) → Keeps P (grab this)

module _ {P : World → Type 0} where
  pub log_of : Tolerates P → AllowsLog P
  log_of t = t.log

  pub grab-Keeps : (this : ℕ) → Tolerates P → Keeps P (grab this)
  grab-Keeps this t = t.grabs this

  pub with_connection-Keeps :
      {A : Type 0} (this : ℕ) (from : String) (otherwise : A) (rest : M A)
      → Tolerates P
      → Keeps P rest
      → Keeps P (with_connection this from otherwise rest)
  unfolding with_connection
  with_connection-Keeps this from otherwise rest t k =
      search (query_rules, grab-Keeps, log_of) depth 7

  pub first_answer-Keeps :
      {A : Type 0} (q : Query) (from msg : String) (read : Row → M A) (after : M A)
      → Tolerates P
      → Allows P (stored q)
      → ((r : Row) → Keeps P (read r))
      → Keeps P after
      → Keeps P (first_answer q from msg read after)
  unfolding first_answer
  first_answer-Keeps q from msg read after t a kr ka = search (query_rules, log_of) depth 9

  pub is_positive-Keeps : (r : Row) → Keeps P (is_positive r)
  unfolding is_positive
  is_positive-Keeps r = search query_rules

  pub as_id-Keeps : (r : Row) → Keeps P (as_id r)
  unfolding as_id
  as_id-Keeps r = search query_rules

  pub as_text-Keeps : (r : Row) → Keeps P (as_text r)
  unfolding as_text
  as_text-Keeps r = search query_rules

ruleset row_rules = (
  query_rules, with_connection-Keeps, first_answer-Keeps, is_positive-Keeps, as_id-Keeps,
  as_text-Keeps,
)

module _ {P : World → Type 0} where
  pub counted-Keeps :
      (this : ℕ) (from : String) (q : Query) (msg : String)
      → Tolerates P
      → Allows P (stored q)
      → Keeps P (counted this from q msg)
  unfolding counted
  counted-Keeps this from q msg t a = search row_rules

  pub found_id-Keeps :
      (q : Query) (from msg : String)
      → Tolerates P
      → Allows P (stored q)
      → Keeps P (found_id q from msg)
  unfolding found_id
  found_id-Keeps q from msg t a = search row_rules

  pub found_name-Keeps :
      (q : Query) (from msg : String)
      → Tolerates P
      → Allows P (stored q)
      → Keeps P (found_name q from msg)
  unfolding found_name
  found_name-Keeps q from msg t a = search row_rules

  pub ensured-Keeps :
      (this : ℕ) (from : String) (have : M Bool) (insert : Query) (insert_msg : String)
      (select : Query) (select_msg : String)
      → Tolerates P
      → Keeps P have
      → Allows P (executed insert)
      → Allows P (stored select)
      → Keeps P (ensured this from have insert insert_msg select select_msg)
  unfolding ensured
  ensured-Keeps this from have insert insert_msg select select_msg t k ai sel =
      search (row_rules, found_id-Keeps, log_of) depth 9

pub ruleset db_rules = (
  query_rules, log_of, grab-Keeps, with_connection-Keeps, first_answer-Keeps, counted-Keeps,
  found_id-Keeps, found_name-Keeps, ensured-Keeps,
)
