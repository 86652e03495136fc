-- ===== src/DbTools.antt =====
-- src/dbTools.cpp: the connection that each object holds, and the shapes that its queries share.
-- `this` is the address of the object.
pub mod Have
pub mod Get
pub mod Name
pub mod Call
pub mod Connected
pub mod Keeps
pub mod Balance
pub mod Bound
pub mod Placeholders
pub mod Table
pub mod Interns
pub mod Failures
mod Tests
use watched_back.Base.{
  ℕ, String, Bool, true, false, Option, none, some, List, [], ◌∷◌, pos, lt_ℤ, to_u32, ◌==◌,
  if◌then◌else◌,
}
use watched_back.World.{Query, returned, undefined, Row, grabbed, released, World}
use watched_back.Monad.{
  M, pure, lift, ask, ask_or_throw, emit, store, ◌>>=◌, ◌>>◌, cases, first_row, error, column,
  to_int, my_catch, my_exec,
}

abbrev pub update : (ℕ → Option ℕ) → ℕ → Option ℕ → ℕ → Option ℕ
update f p v q = if p == q then v else f q

-- `db = …`
unfoldable pub set_conn : ℕ → Option ℕ → M (Unit {0})
set_conn this c e w = (returned tt, record w { conn = update w.conn this c })

-- What `safe_grab` gave, in the field `db`.
unfoldable pub keep_conn : ℕ → Option ℕ → M Bool
keep_conn this none = do set_conn this none; pure false
keep_conn this (some c) = do emit (grabbed this c); set_conn this (some c); pure true

-- `dbTools::grab`
unfoldable pub grab : ℕ → M Bool
grab this = do
  db ← ask λ e w. w.conn this
  cases db (do c ← ask_or_throw λ e w. e.safe_grab w.trace; keep_conn this c) (λ _. pure true)

-- `dbTools::release`
unfoldable pub release : ℕ → M (Unit {0})
release this = do
  db ← ask λ e w. w.conn this
  cases db (pure tt) (λ c. do emit (released this c); set_conn this none)

-- `if (!grab()) { l->error(from, …); return otherwise; }` and the rest.
unfoldable pub with_connection : {A : Type 0} → ℕ → String → A → M A → M A
with_connection this from otherwise rest = do
  got ← grab this
  if got then rest else (do error from "Failed to get a connection from the pool!"; pure otherwise)

-- `if (StoreQueryResult res = query.store()) { Row row = *res.begin(); return read(row); }` under
-- `myqCatch`, and what follows it.
unfoldable pub first_answer : {A : Type 0} → Query → String → String → (Row → M A) → M A → M A
first_answer q from msg read after = do
  answer ← my_catch q from msg (do
    res ← store q
    cases res (pure none) (λ rows. do row ← first_row rows; a ← read row; pure (some a)))
  cases answer after pure

-- `return int(row[0]) > 0;`
unfoldable pub is_positive : Row → M Bool
is_positive row = do s ← column row 0; n ← to_int s; pure (lt_ℤ (pos 0) n)

-- `return int(row[0]);`, as a `uint32_t`.
unfoldable pub as_id : Row → M ℕ
as_id row = do s ← column row 0; n ← to_int s; pure (to_u32 n)

-- `return row[0].c_str();`
unfoldable pub as_text : Row → M String
as_text row = column row 0

-- A test by `select count(*)`.
unfoldable pub counted : ℕ → String → Query → String → M Bool
counted this from q msg =
    with_connection this from false (first_answer q from msg is_positive (pure false))

-- The id that a query finds, and 0 if it fails.
unfoldable pub found_id : Query → String → String → M ℕ
found_id q from msg = first_answer q from msg as_id (pure 0)

-- The name that a query finds. After a failure the source says `return 0;`, which makes a
-- `std::string` from a null pointer.
unfoldable pub found_name : Query → String → String → M String
found_name q from msg = first_answer q from msg as_text (lift undefined)

-- A row that is inserted unless it is there, and its id.
unfoldable pub ensured : ℕ → String → M Bool → Query → String → Query → String → M ℕ
ensured this from have insert insert_msg select select_msg = with_connection this from 0 (do
  there ← have
  (if there then pure tt else my_exec insert from insert_msg)
  found_id select from select_msg)
