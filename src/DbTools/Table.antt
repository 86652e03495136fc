-- ===== src/DbTools/Table.antt =====
-- The lookups that insert a missing row, over a server that keeps its tables: `getHost` and the
-- others implement "find the key's id, adding the key if it is new".
use watched_back.Base.{
  ℕ, ◌^◌, ◌<◌, ◌≡◌, refl, String, Bool, true, false, Option, none, some, List, [], ◌∷◌, pos, arith,
  is_some, ◌∙◌, ap, ap₂, sym, inl, inr, Option-cases,
}
use mathlib.Core.Option.{some-injective}
use watched_back.World.{
  Query, Outcome, returned, Row, stored, executed, Trace, Env, World, add_event,
}
use watched_back.Monad.{M, run}
use watched_back.DbTools.{
  counted, with_connection, grab, first_answer, is_positive, as_id, found_id, ensured,
}

-- The `select count(*)` of a key that has at most one row, as a unique index has it.
abbrev pub count_text : Option ℕ → String
count_text none = "0"
count_text (some id) = "1"

abbrev pub one_cell : String → Outcome (Option (List Row))
one_cell s = returned (some ((s ∷ []) ∷ []))

-- mysql++ reads fields and numbers as they were sent.
pub record ReadsNumbers (e : Env) : Type 0 where
  pub column_zero : (s : String) → e.column (s ∷ []) 0 ≡ returned s
  pub to_int_zero : e.to_int "0" ≡ returned (pos 0)
  pub to_int_one : e.to_int "1" ≡ returned (pos 1)

-- The server's table for one kind of key: `id_of t k` is the id of the row of `k` after the
-- history `t`. What the client reads leaves it alone, and an insert of a new key adds a row.
pub record IsTable {K : Type 0} (e : Env) (count insert select : K → Query)
    (id_of : Trace → K → Option ℕ) : Type 0 where
  pub store-count : (t : Trace) (k : K) → e.store t (count k) ≡ one_cell (count_text (id_of t k))
  pub store-select :
      (t : Trace) (k : K) (id : ℕ)
      → id_of t k ≡ some id
      → (s : String) × (e.store t (select k) ≡ one_cell s) × (e.to_int s ≡ returned (pos id))
  pub fits : (t : Trace) (k : K) (id : ℕ) → id_of t k ≡ some id → id < 2 ^ 31
  pub exec-insert : (t : Trace) (k : K) → id_of t k ≡ none → e.exec t (insert k) ≡ returned true
  pub id_of-insert :
      (t : Trace) (k : K)
      → id_of t k ≡ none
      → (id : ℕ) × (id_of (executed (insert k) ∷ t) k ≡ some id)
  -- The other rows stay.
  pub id_of-insert_other :
      (t : Trace) (k j : K) (id : ℕ)
      → id_of t j ≡ some id
      → id_of (executed (insert k) ∷ t) j ≡ some id
  pub id_of-stored : (t : Trace) (q : Query) (k : K) → id_of (stored q ∷ t) k ≡ id_of t k

first_answer_row :
    {A : Type 0} (q : Query) (from msg : String) (read : Row → M A) (after : M A) (e : Env)
    (w w' : World) (r : Row) (a : A)
    → e.store w.trace q ≡ returned (some (r ∷ []))
    → read r e (add_event w (stored q)) ≡ (returned a, w')
    → run (first_answer q from msg read after) e w ≡ (returned a, w')
unfolding run first_answer
first_answer_row q from msg read after e w w' r a s d = ground arith

pub with_connection_held :
    {A : Type 0} (this : ℕ) (from : String) (otherwise : A) (rest : M A) (e : Env) (w : World)
    (c : ℕ)
    → w.conn this ≡ some c
    → run (with_connection this from otherwise rest) e w ≡ run rest e w
unfolding run with_connection grab
with_connection_held this from otherwise rest e w c h = ground arith

module _ {e : Env} (reads : ReadsNumbers e) (w : World) where
  pub counted_row :
      (this : ℕ) (from : String) (q : Query) (msg : String) (c : ℕ) (row : Option ℕ)
      → w.conn this ≡ some c
      → e.store w.trace q ≡ one_cell (count_text row)
      → run (counted this from q msg) e w ≡ (returned (is_some row), add_event w (stored q))
  unfolding run counted with_connection grab first_answer is_positive
  counted_row this from q msg c none h s = ground (arith, reads.column_zero "0", reads.to_int_zero)
  counted_row this from q msg c (some id) h s =
      ground (arith, reads.column_zero "1", reads.to_int_one)

  found_id_row :
      (q : Query) (from msg s : String) (id : ℕ)
      → e.store w.trace q ≡ one_cell s
      → e.to_int s ≡ returned (pos id)
      → id < 2 ^ 31
      → run (found_id q from msg) e w ≡ (returned id, add_event w (stored q))
  unfolding run found_id first_answer as_id
  found_id_row q from msg s id found number h = ground (arith, reads.column_zero s)

-- What `ensured` does once its test has answered.
pub ensured_there :
    (this : ℕ) (from : String) (have : M Bool) (insert : Query) (insert_msg : String)
    (select : Query) (select_msg : String) (e : Env) (w w' : World) (c : ℕ)
    → w.conn this ≡ some c
    → run have e w ≡ (returned true, w')
    → run (ensured this from have insert insert_msg select select_msg) e w
      ≡ run (found_id select from select_msg) e w'
unfolding run ensured with_connection grab
ensured_there this from have insert insert_msg select select_msg e w w' c h t = ground arith

pub ensured_new :
    (this : ℕ) (from : String) (have : M Bool) (insert : Query) (insert_msg : String)
    (select : Query) (select_msg : String) (e : Env) (w w' : World) (c : ℕ)
    → w.conn this ≡ some c
    → run have e w ≡ (returned false, w')
    → e.exec w'.trace insert ≡ returned true
    → run (ensured this from have insert insert_msg select select_msg) e w
      ≡ run (found_id select from select_msg) e (add_event w' (executed insert))
unfolding run ensured with_connection grab
ensured_new this from have insert insert_msg select select_msg e w w' c h t x = ground arith

-- The world after a lookup: the two or three queries that it sends, and nothing else.
abbrev pub looked_up : Option ℕ → Query → Query → Query → World → World
looked_up (some id) count insert select w = add_event (add_event w (stored count)) (stored select)
looked_up none count insert select w =
    add_event (add_event (add_event w (stored count)) (executed insert)) (stored select)

-- The operation gives the id of the key, which the table has afterwards, and sends an insert only
-- if it did not have it; the ids of the other keys stay.
pub record Interns {K : Type 0} (e : Env) (w : World) (count insert select : K → Query)
    (id_of : Trace → K → Option ℕ) (k : K) (m : M ℕ) : Type 0 where
  pub id : ℕ
  pub after : World
  pub runs : run m e w ≡ (returned id, after)
  pub sends : after ≡ looked_up (id_of w.trace k) (count k) (insert k) (select k) w
  pub has_key : id_of after.trace k ≡ some id
  pub keeps : (j : K) (i : ℕ) → id_of w.trace j ≡ some i → id_of after.trace j ≡ some i

module _ {K : Type 0} {e : Env} {count insert select : K → Query} {id_of : Trace → K → Option ℕ}
    (reads : ReadsNumbers e) (table : IsTable e count insert select id_of) (this : ℕ)
    (from from_have have_msg insert_msg select_msg : String) (k : K) (w : World) (c : ℕ)
    (connected : w.conn this ≡ some c) where
  abbrev lookup : M ℕ
  lookup =
      ensured this from (counted this from_have (count k) have_msg) (insert k) insert_msg (select k)
        select_msg

  kept :
      (t : Trace) (q : Query) (j : K) (i : ℕ) → id_of t j ≡ some i → id_of (stored q ∷ t) j ≡ some i
  kept t q j i h = table.id_of-stored t q j ∙ h

  lookup_present :
      (id : ℕ) → id_of w.trace k ≡ some id → Interns e w count insert select id_of k lookup
  lookup_present id h = record {
    id = id;
    after = looked_up (some id) (count k) (insert k) (select k) w;
    runs =
        ensured_there this from _ (insert k) insert_msg (select k) select_msg e w asked c connected
          (counted_row reads w this from_have (count k) have_msg c (some id) connected
            (table.store-count w.trace k ∙ ap (λ o. one_cell (count_text o)) h))
        ∙ found_id_row reads asked (select k) from select_msg answer.0 id answer.1 answer.2
            (table.fits w.trace k id h);
    sends = ap (λ o. looked_up o (count k) (insert k) (select k) w) (sym h);
    has_key = kept asked.trace (select k) k id there;
    keeps = λ j i x. kept asked.trace (select k) j i (kept w.trace (count k) j i x);
  }
    where
      asked : World
      asked = add_event w (stored (count k))

      there : id_of asked.trace k ≡ some id
      there = kept w.trace (count k) k id h

      answer :
          (s : String) × (e.store asked.trace (select k) ≡ one_cell s)
          × (e.to_int s ≡ returned (pos id))
      answer = table.store-select asked.trace k id there

  lookup_absent : id_of w.trace k ≡ none → Interns e w count insert select id_of k lookup
  lookup_absent h = record {
    id = new.0;
    after = looked_up none (count k) (insert k) (select k) w;
    runs =
        ensured_new this from _ (insert k) insert_msg (select k) select_msg e w asked c connected
          (counted_row reads w this from_have (count k) have_msg c none connected
            (table.store-count w.trace k ∙ ap (λ o. one_cell (count_text o)) h))
          (table.exec-insert asked.trace k missing)
        ∙ found_id_row reads added (select k) from select_msg answer.0 new.0 answer.1 answer.2
            (table.fits added.trace k new.0 new.1);
    sends = ap (λ o. looked_up o (count k) (insert k) (select k) w) (sym h);
    has_key = kept added.trace (select k) k new.0 new.1;
    keeps = λ j i x.
        kept added.trace (select k) j i
          (table.id_of-insert_other asked.trace k j i (kept w.trace (count k) j i x));
  }
    where
      asked : World
      asked = add_event w (stored (count k))

      added : World
      added = add_event asked (executed (insert k))

      missing : id_of asked.trace k ≡ none
      missing = table.id_of-stored w.trace (count k) k ∙ h

      new : (id : ℕ) × (id_of added.trace k ≡ some id)
      new = table.id_of-insert asked.trace k missing

      answer :
          (s : String) × (e.store added.trace (select k) ≡ one_cell s)
          × (e.to_int s ≡ returned (pos new.0))
      answer = table.store-select added.trace k new.0 new.1

  pub lookup-Interns : Interns e w count insert select id_of k lookup
  lookup-Interns = elim (Option-cases (id_of w.trace k)) [
    | inl h ↦ lookup_absent h
    | inr (id, h) ↦ lookup_present id h
  ]

pub conn-looked_up :
    (row : Option ℕ) (count insert select : Query) (w : World)
    → (looked_up row count insert select w).conn ≡ w.conn
conn-looked_up (some id) count insert select w = refl
conn-looked_up none count insert select w = refl

-- A second lookup, in the world that the first one left.
pub Interns_again :
    {K : Type 0} {e : Env} {w : World} {count insert select : K → Query}
    {id_of : Trace → K → Option ℕ} {k : K} {m : M ℕ}
    (first : Interns e w count insert select id_of k m)
    (second : Interns e first.after count insert select id_of k m)
    → run m e first.after
      ≡ (returned first.id, looked_up (some first.id) (count k) (insert k) (select k) first.after)
Interns_again {count} {insert} {select} {k} first second =
    second.runs
    ∙ ap₂ (λ i v. (returned i, v)) same
        (second.sends
          ∙ ap (λ o. looked_up o (count k) (insert k) (select k) first.after) first.has_key)
  where
    same : second.id ≡ first.id
    same = some-injective _ _ (sym second.has_key ∙ second.keeps k first.id first.has_key)
