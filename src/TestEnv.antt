-- ===== src/TestEnv.antt =====
-- Surroundings for tests: one that answers nothing, and a server that keeps the hosts' table. Its
-- numbers are written in unary, and a host's id is one more than the length of its name.
use Prim.Native.Char.{code}
use watched_back.Base.{
  zero, ℕ, suc, ◌%◌, ◌≡◌, refl, String, true, Option, none, some, List, [], ◌∷◌, pos, arith, size,
  str_eq, if◌then◌else◌, eq_iff, eq_refl, ◌&&◌, ◌==◌, ap, ◌∙◌, sym,
}
use watched_back.World.{
  Param, text, Outcome, returned, threw, std_exception, Row, executed, grabbed, released, logged,
  requested, alerted, stored, Trace, Env,
}
use watched_back.DbTools.Have.{count_host}
use watched_back.DbTools.Get.{insert_host, select_host}
use watched_back.DbTools.Table.{ReadsNumbers, IsTable, count_text, one_cell}

abbrev first_text : List (String × Param) → String
first_text ((_, text s) ∷ _) = s
first_text _ = ""

abbrev marks : ℕ → String
marks zero = ""
marks (suc n) = String.◌∷◌ "1" (marks n)

abbrev host_id : String → ℕ
host_id name = suc (size name % 1000)

-- The id of a host after a history: a host is there once it has been inserted.
abbrev pub host_row : Trace → String → Option ℕ
host_row [] name = none
host_row (executed q ∷ t) name =
    if str_eq q.template "insert into h$hosts(name) values(%0q:h)"
      && str_eq (first_text q.defaults) name
    then some (host_id name)
    else host_row t name
host_row (_ ∷ t) name = host_row t name

abbrev first_column : Row → Outcome String
first_column [] = threw (std_exception "no such field")
first_column (s ∷ _) = returned s

abbrev pub number_of : String → ℕ
number_of String.[] = 0
number_of (String.◌∷◌ c s) = if code c == b'0' then 0 else suc (size s)

-- Every statement is accepted; queries other than those for hosts have no result.
abbrev pub hosts_env : Env
hosts_env = record {
  safe_grab = λ t. returned (some 7);
  store = λ t q.
      if str_eq q.template "select count(*) from h$hosts where name=%0q:h"
      then one_cell (count_text (host_row t (first_text q.defaults)))
      else if str_eq q.template "select id from h$hosts where name=%0q:h"
      then one_cell (marks (host_id (first_text q.defaults)))
      else returned none;
  exec = λ t q. returned true;
  insert_id = λ t q. 0;
  query_error = λ t q. "";
  query_str = λ q. q.template;
  column = λ r i. first_column r;
  to_int = λ s. returned (pos (number_of s));
  to_uint = λ s. returned (number_of s);
  to_double = λ s. returned (record { units = pos 0 });
  request = λ t m p. threw (std_exception "offline");
  now = λ t. record { units = pos 0 };
}

size-marks : (n : ℕ) → size (marks n) ≡ n
size-marks zero = refl
size-marks (suc n) = ap suc (size-marks n)

number_of-marks : (n : ℕ) → number_of (marks (suc n)) ≡ suc n
number_of-marks n = ap suc (size-marks n)

host_row-host_id : (t : Trace) (k : String) (id : ℕ) → host_row t k ≡ some id → id ≡ host_id k
host_row-host_id [] k id h = cc
host_row-host_id (executed q ∷ t) k id h = ground (arith, host_row-host_id t k id)
host_row-host_id (stored q ∷ t) k id h = host_row-host_id t k id h
host_row-host_id (grabbed p c ∷ t) k id h = host_row-host_id t k id h
host_row-host_id (released p c ∷ t) k id h = host_row-host_id t k id h
host_row-host_id (logged n f m ∷ t) k id h = host_row-host_id t k id h
host_row-host_id (requested m p ∷ t) k id h = host_row-host_id t k id h
host_row-host_id (alerted a l d s m ∷ t) k id h = host_row-host_id t k id h

host_row-insert :
    (t : Trace) (k : String) → host_row (executed (insert_host k) ∷ t) k ≡ some (host_id k)
host_row-insert t k = rw eq_refl

host_row-insert_other :
    (t : Trace) (k j : String) (id : ℕ)
    → host_row t j ≡ some id
    → host_row (executed (insert_host k) ∷ t) j ≡ some id
host_row-insert_other t k j id h = ground (arith, eq_iff k j, host_row-host_id t j id h)

pub hosts_env-ReadsNumbers : ReadsNumbers hosts_env
hosts_env-ReadsNumbers = record { column_zero = λ s. refl; to_int_zero = refl; to_int_one = refl }

pub hosts_env-IsTable : IsTable hosts_env count_host insert_host select_host host_row
hosts_env-IsTable = record {
  store-count = λ t k. refl;
  store-select = λ t k id h. (
    marks (host_id k),
    refl,
    ap (λ n. returned (pos n)) (number_of-marks _ ∙ sym (host_row-host_id t k id h)),
  );
  fits = λ t k id h. omega (arith, host_row-host_id t k id h);
  exec-insert = λ t k h. refl;
  id_of-insert = λ t k h. (host_id k, host_row-insert t k);
  id_of-insert_other = host_row-insert_other;
  id_of-stored = λ t q k. refl;
}

-- A database with two agents that are offline, by the marks of their ids.
abbrev pub cell : Row → ℕ → Outcome String
cell [] i = threw (std_exception "no such field")
cell (s ∷ r) zero = returned s
cell (s ∷ r) (suc i) = cell r i

abbrev pub agents_env : Env
agents_env = record hosts_env {
  store = λ t q.
      if str_eq q.template "select id from c$agents"
      then returned (some (("1" ∷ []) ∷ ("11" ∷ []) ∷ []))
      else if str_eq q.template "select host, port, pool_freq, use_ssl from c$agents where id=%0:id"
      then returned (some (("web" ∷ "80" ∷ "1" ∷ "0" ∷ []) ∷ []))
      else returned (some (("1" ∷ []) ∷ []));
  column = cell;
}
