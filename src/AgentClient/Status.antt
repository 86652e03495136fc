-- ===== src/AgentClient/Status.antt =====
-- The counters of a service's parts.
use watched_back.Base.{
  ℕ, suc, ◌+◌, ◌%◌, ◌^◌, ◌≤◌, ◌<◌, ◌≡◌, refl, String, Bool, true, false, [], ◌∷◌, length, arith,
  str_eq,
}
use watched_back.Double.{Double}
use watched_back.World.{Env, World, returned}
use watched_back.Monad.{run, fold_m}
use watched_back.Monad.Gives.{
  Gives, pure-Gives, bind-Gives, bind_with-Gives, if-Gives, fold_m-Gives_counted,
}
use watched_back.Json.{Jsoncpp}
use watched_back.Json.Read.{walk}
use watched_back.AgentClient.Service.{
  Status, count_ok, count_failed, collect_process, count_socket, collect_socket, collect_status,
}

-- `n` parts have been counted: `good` that are fine, `bad` that are not, `fresh` of these that are
-- new failures. The counters have the three numbers modulo 2^32.
record Tallied (n : ℕ) (s : Status) : Type 0 where
  good : ℕ
  bad : ℕ
  fresh : ℕ
  all : good + bad ≡ n
  some_of : fresh ≤ bad
  ok : s.ok ≡ good % 2 ^ 32
  failed : s.failed ≡ bad % 2 ^ 32
  nfailed : s.nfailed ≡ fresh % 2 ^ 32

count_ok-Tallied : (n : ℕ) (s : Status) → Tallied n s → Tallied (suc n) (count_ok s)
count_ok-Tallied n s t = record {
  good = suc t.good;
  bad = t.bad;
  fresh = t.fresh;
  all = omega (arith, t.all);
  some_of = t.some_of;
  ok = omega (arith, t.ok);
  failed = t.failed;
  nfailed = t.nfailed;
}

count_failed-Tallied :
    (n : ℕ) (s : Status) (known : Bool) → Tallied n s → Tallied (suc n) (count_failed known s)
count_failed-Tallied n s true t = record {
  good = t.good;
  bad = suc t.bad;
  fresh = t.fresh;
  all = omega (arith, t.all);
  some_of = omega (arith, t.some_of);
  ok = t.ok;
  failed = omega (arith, t.failed);
  nfailed = t.nfailed;
}
count_failed-Tallied n s false t = record {
  good = t.good;
  bad = suc t.bad;
  fresh = suc t.fresh;
  all = omega (arith, t.all);
  some_of = omega (arith, t.some_of);
  ok = t.ok;
  failed = omega (arith, t.failed);
  nfailed = omega (arith, t.nfailed);
}

none_yet : Tallied 0 (record { ok = 0; failed = 0; nfailed = 0 })
none_yet = record {
  good = 0;
  bad = 0;
  fresh = 0;
  all = refl;
  some_of = omega arith;
  ok = refl;
  failed = refl;
  nfailed = refl;
}

module _ (J : Jsoncpp) (this serv_id : ℕ) {e : Env} where
  collect_process-Gives :
      (now : Double) (n : ℕ) (s : Status) (j : J.Value)
      → Tallied n s
      → Gives e (Tallied (suc n)) (collect_process J this serv_id now s j)
  unfolding collect_process
  collect_process-Gives now n s j t = bind-Gives _ _ λ name. bind-Gives _ _ λ path.
      bind-Gives _ _ λ cwd. bind-Gives _ _ λ user. bind-Gives _ _ λ stts. bind-Gives _ _ λ status.
        if-Gives (str_eq status "ok") _ _
          (λ y. bind-Gives _ _ λ pid. bind-Gives _ _ λ _. pure-Gives _ (count_ok-Tallied n s t))
          (λ other. bind-Gives _ _ λ called. bind-Gives _ _ λ how.
            bind-Gives _ _
              λ known. bind-Gives _ _ λ _. pure-Gives _ (count_failed-Tallied n s known t))

  collect_socket-Gives :
      (now : Double) (n : ℕ) (s : Status) (j : J.Value)
      → Tallied n s
      → Gives e (Tallied (suc n)) (collect_socket J this serv_id now s j)
  unfolding collect_socket count_socket
  collect_socket-Gives now n s j t =
      bind_with-Gives _ _
        (bind-Gives _ _ λ status.
          if-Gives (str_eq status "ok") _ _ (λ y. pure-Gives _ (count_ok-Tallied n s t))
            (λ other. bind-Gives _ _ λ called.
              bind-Gives _ _
                λ how. bind-Gives _ _ λ known. pure-Gives _ (count_failed-Tallied n s known t)))
        λ c t'. bind-Gives _ _ λ name. bind-Gives _ _ λ stts. bind-Gives _ _ λ _. pure-Gives c t'

  -- A value that a walk is known to find.
  walk-Gives :
      (v st x : J.Value) (a b : String)
      → J.at v a ≡ returned st
      → J.at st b ≡ returned x
      → Gives e (λ y. y ≡ x) (walk J v (a ∷ b ∷ []))
  unfolding run walk
  walk-Gives v st x a b h k = record { at = λ w y r. ground (arith, h, k, r) }

  processes-Gives :
      (now : Double) (x ps : J.Value)
      → x ≡ ps
      → Gives e (Tallied (0 + length (J.elements ps))) (
          fold_m
            (J.elements x)
            (record { ok = 0; failed = 0; nfailed = 0 })
            (collect_process J this serv_id now))
  processes-Gives now x ps h =
      rw h (fold_m-Gives_counted (J.elements ps) _ 0 _ none_yet (collect_process-Gives now))

  sockets-Gives :
      (now : Double) (x ss : J.Value) (n : ℕ) (s : Status)
      → x ≡ ss
      → Tallied n s
      → Gives e
          (Tallied (n + length (J.elements ss)))
          (fold_m (J.elements x) s (collect_socket J this serv_id now))
  sockets-Gives now x ss n s h t =
      rw h (fold_m-Gives_counted (J.elements ss) s n _ t (collect_socket-Gives now))

  collect_status-Gives :
      (now : Double) (i st ps ss : J.Value)
      → J.at i "status" ≡ returned st
      → J.at st "process" ≡ returned ps
      → J.at st "sockets" ≡ returned ss
      → Gives e
          (Tallied (0 + length (J.elements ps) + length (J.elements ss)))
          (collect_status J this serv_id now i)
  unfolding collect_status
  collect_status-Gives now i st ps ss h hp hs =
      bind_with-Gives _ _ (walk-Gives i st ps _ _ h hp) λ x p.
        bind_with-Gives _ _ (processes-Gives now x ps p) λ s t.
          bind_with-Gives _ _ (walk-Gives i st ss _ _ h hs) λ z q. sockets-Gives now z ss _ s q t

Tallied-sum :
    (n : ℕ) (s : Status) → n < 2 ^ 32 → Tallied n s → (s.ok + s.failed ≡ n) × (s.nfailed ≤ s.failed)
Tallied-sum n s b t = (
  omega (arith, b, t.all, t.ok, t.failed, t.some_of, t.nfailed),
  omega (arith, b, t.all, t.ok, t.failed, t.some_of, t.nfailed),
)

-- A service with fewer than 2^32 processes and sockets, whatever their states, the server and the
-- agent's other data: when its status has been collected, every process and socket is counted once,
-- as fine or as failed, and no more failures are reported as new than there are.
pub collect_status-counts :
    (J : Jsoncpp) (this serv_id : ℕ) (now : Double) (i st ps ss : J.Value) (e : Env) (w : World)
    (s : Status)
    → J.at i "status" ≡ returned st
    → J.at st "process" ≡ returned ps
    → J.at st "sockets" ≡ returned ss
    → length (J.elements ps) + length (J.elements ss) < 2 ^ 32
    → (run (collect_status J this serv_id now i) e w).0 ≡ returned s
    → (s.ok + s.failed ≡ length (J.elements ps) + length (J.elements ss)) × (s.nfailed ≤ s.failed)
collect_status-counts J this serv_id now i st ps ss e w s h hp hs b r =
    let t = (collect_status-Gives J this serv_id now i st ps ss h hp hs).at w s r in
    let (sum, new) = Tallied-sum _ s (omega (arith, b)) t in (omega (arith, sum), new)
