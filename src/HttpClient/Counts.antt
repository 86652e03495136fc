-- ===== src/HttpClient/Counts.antt =====
-- The counters of a client account for every call of `getJSON`.
use watched_back.Base.{
  ℕ, suc, ◌+◌, ◌%◌, ◌^◌, ◌≡◌, refl, ap, ◌⊎◌, inl, inr, String, Bool, true, false, List, [], ◌∷◌,
  arith,
}
use watched_back.World.{
  Env, World, Outcome, returned, threw, undefined, json_runtime_error, bad_query, std_exception,
}
use watched_back.Monad.{M, run, ◌>>=◌, pure, fold_m, lift}
use watched_back.Monad.Gives.{
  Gives, pure-Gives, bind-Gives, bind_with-Gives, cases-Gives, fold_m-Gives,
}
use watched_back.Json.{Jsoncpp}
use watched_back.HttpClient.{HttpClient, next_u32, read_answer, get_json, reset_count}

-- One call: `ok` counts it if it gave true, and one of the other two if it gave false.
abbrev Counted : HttpClient → HttpClient → Bool → Type 0
Counted c d b =
    ((b ≡ true) × (d.ok ≡ next_u32 c.ok) × (d.failed ≡ c.failed) × (d.parse ≡ c.parse))
    ⊎ ((b ≡ false)
        × (d.ok ≡ c.ok)
        × (((d.failed ≡ next_u32 c.failed) × (d.parse ≡ c.parse))
            ⊎ ((d.failed ≡ c.failed) × (d.parse ≡ next_u32 c.parse))))

abbrev pub count : Bool → List Bool → ℕ
count b [] = 0
count true (true ∷ bs) = suc (count true bs)
count true (false ∷ bs) = count true bs
count false (true ∷ bs) = count false bs
count false (false ∷ bs) = suc (count false bs)

-- The counters after the calls with the results `bs`.
pub record Tallied (c : HttpClient) (bs : List Bool) : Type 0 where
  pub good : c.ok ≡ count true bs % 2 ^ 32
  pub bad : (c.failed + c.parse) % 2 ^ 32 ≡ count false bs % 2 ^ 32

tally :
    (c d : HttpClient) (b : Bool) (bs : List Bool)
    → Tallied c bs
    → Counted c d b
    → Tallied d (b ∷ bs)
tally c d true bs t (inl (y, g, f, p)) = record {
  good = omega (arith, t.good, g);
  bad = omega (arith, t.bad, f, p);
}
tally c d true bs t (inr (n, g, f)) = cc
tally c d false bs t (inl (y, g, f, p)) = cc
tally c d false bs t (inr (n, g, inl (f, p))) = record {
  good = omega (arith, t.good, g);
  bad = omega (arith, t.bad, f, p);
}
tally c d false bs t (inr (n, g, inr (f, p))) = record {
  good = omega (arith, t.good, g);
  bad = omega (arith, t.bad, f, p);
}

module _ (J : Jsoncpp) (cfg : J.Value) where
  -- Calls of `getJSON` in a row on one `result`; the results, the newest first.
  unfoldable pub poll :
      HttpClient × J.Value × List Bool → String → M (HttpClient × J.Value × List Bool)
  poll (c, result, bs) path = do
    answer ← get_json J cfg c path result
    let (c', result', b) = answer
    pure (c', result', b ∷ bs)

  unfoldable pub polls :
      List String → HttpClient × J.Value × List Bool → M (HttpClient × J.Value × List Bool)
  polls paths s = fold_m paths s poll

threw-Gives :
    {A : Type 0} {Q : A → Type 0} {e : Env} (o : Outcome A)
    → ((a : A) → o ≡ returned a → Q a)
    → Gives e Q (lift o)
unfolding run
threw-Gives o k = record { at = λ w a h. k a h }

module _ (J : Jsoncpp) (cfg : J.Value) {e : Env} where
  read_answer-Gives :
      (c : HttpClient) (path : String) (result : J.Value) (text : String) (o : Outcome J.Value)
      → Gives e (λ (d, v, b). Counted c d b) (read_answer J cfg c path result text o)
  unfolding read_answer
  read_answer-Gives c path result text (returned v) = pure-Gives _ (inl (refl, refl, refl, refl))
  read_answer-Gives c path result text (threw (json_runtime_error s)) =
      bind-Gives _ _ λ _. pure-Gives _ (inr (refl, refl, inr (refl, refl)))
  read_answer-Gives c path result text (threw (bad_query s)) = threw-Gives _ (λ a h. cc)
  read_answer-Gives c path result text (threw (std_exception s)) = threw-Gives _ (λ a h. cc)
  read_answer-Gives c path result text undefined = threw-Gives _ (λ a h. cc)

  get_json-Gives :
      (c : HttpClient) (path : String) (result : J.Value)
      → Gives e (λ (d, v, b). Counted c d b) (get_json J cfg c path result)
  unfolding get_json
  get_json-Gives c path result = bind-Gives _ _ λ answer.
      cases-Gives answer _ _ (pure-Gives _ (inr (refl, refl, inl (refl, refl))))
        λ text. read_answer-Gives c path result text (J.parse text)

  poll-Gives :
      (s : HttpClient × J.Value × List Bool) (path : String)
      → Tallied s.0 s.2
      → Gives e (λ s'. Tallied s'.0 s'.2) (poll J cfg s path)
  unfolding poll
  poll-Gives (c, result, bs) path t =
      bind_with-Gives _ _ (get_json-Gives c path result)
        λ (d, v, b) k. pure-Gives _ (tally c d b bs t k)

-- Whatever paths a client with new counters is asked for, and whatever the agent answers: when all
-- the calls return, `resetCount` gives as its `ok` the number of those that returned true, and as
-- the sum of the other two the number of those that returned false, both modulo 2^32. The next
-- counting starts from 0.
pub polls-reset_count :
    (J : Jsoncpp) (cfg : J.Value) (paths : List String) (e : Env) (w : World) (c c' : HttpClient)
    (result result' : J.Value) (bs : List Bool)
    → c ≡ (reset_count c).1
    → (run (polls J cfg paths (c, result, [])) e w).0 ≡ returned (c', result', bs)
    → let ((ok, failed, parse), next) = reset_count c' in
      (ok ≡ count true bs % 2 ^ 32)
      × ((failed + parse) % 2 ^ 32 ≡ count false bs % 2 ^ 32)
      × ((reset_count next).0 ≡ (0, 0, 0))
unfolding polls
polls-reset_count J cfg paths e w c c' result result' bs fresh h =
    let t =
      (fold_m-Gives paths (c, result, []) _ new (poll-Gives J cfg)).at w (c', result', bs) h in
    (t.good, t.bad, refl)
  where
    new : Tallied c []
    new = record {
      good = ap (λ d. d.ok) fresh;
      bad = ap (λ d. (d.failed + d.parse) % 2 ^ 32) fresh;
    }
