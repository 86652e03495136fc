-- ===== src/AgentClient/Offline.antt =====
-- `agentClient::init` of src/agentClient.cpp, for an agent that cannot be reached.
use watched_back.Base.{
  ℕ, ◌≡◌, refl, ap, ◌∙◌, sym, subst, String, Bool, false, ◌||◌, Option, none, some, List, [], ◌∷◌,
  ltb, clash,
}
use watched_back.World.{Query, Row, Trace, Exception, returned, threw, Env}
use watched_back.Monad.{M, pure, ◌>>=◌, cases, first_row, fold_caught}
use watched_back.Monad.Returns.{
  Returns, pure-Returns, bind-Returns, lift-Returns, if-Returns, if_cases-Returns, cases-Returns,
  cases-none-Returns, emit-Returns,
}
use watched_back.Monad.Settles.{
  Reads, Ends, badly, Settles, pure-Settles, ask_or_throw-Settles, bind-Settles, if-Settles,
  store-Settles, Returns-Settles, catch-Returns, my_catch-Returns, fold_caught-Returns,
}
use watched_back.Monad.Gives.{Holds}
use watched_back.Json.{Jsoncpp}
use watched_back.DbTools.Connected.{Lends, with_connection-Returns}
use watched_back.HttpClient.{HttpClient, setting, construct, answer_of, request, fetch, get_json}
use watched_back.AgentClient.{AgentClient}
use watched_back.AgentClient.Api.{
  Settings, Step, read_host, read_port, read_freq, read_ssl, agent_query, read_setting,
  read_settings, update_ready, init_agent,
}

-- The configuration has the settings that a client reads, and each has its type.
pub record HasSettings (J : Jsoncpp) (cfg : J.Value) : Type 0 where
  pub member : String → J.Value
  pub reads : (k : String) → J.at cfg k ≡ returned (member k)
  pub text : (k : String) → (s : String) × (J.as_string (member k) ≡ returned s)
  pub flag : (b : Bool) × (J.as_bool (member "SSL_verify_name") ≡ returned b)

-- No request is answered.
pub record Unanswered (e : Env) : Type 0 where
  pub reason : Trace → String → String → Exception
  pub fails : (t : Trace) (m url : String) → e.request t m url ≡ threw (reason t m url)

-- A result has a row.
abbrev pub HasRow : Option (List Row) → Type 0
HasRow none = Unit
HasRow (some []) = ⊥
HasRow (some (r ∷ rows)) = Unit

-- No request has been counted yet.
abbrev Fresh : HttpClient → Type 0
Fresh c = (c.ok ≡ 0) × (c.failed ≡ 0) × (c.parse ≡ 0)

no_counts : (c : HttpClient) → Fresh c → (ltb 0 c.ok || ltb 0 c.failed || ltb 0 c.parse) ≡ false
no_counts c (ok, failed, parse) = rw (ok, failed, parse) refl

-- What follows a query, by its answer.
answered-Returns :
    {e : Env} {B : Type 0} {Q : B → Type 0} (answer : Option (Option (List Row))) (n m : M B)
    (k : List Row → M B)
    → Holds HasRow answer
    → Returns e Q n
    → Returns e Q m
    → ((rows : List Row) → HasRow (some rows) → Returns e Q (k rows))
    → Returns e Q (cases answer n λ res. cases res m k)
unfolding cases
answered-Returns none n m k h rn rm rk = rn
answered-Returns (some none) n m k h rn rm rk = rm
answered-Returns (some (some rows)) n m k h rn rm rk = rk rows h

module _ (J : Jsoncpp) (cfg : J.Value) (has : HasSettings J cfg) {e : Env}
    (off : Unanswered e) where
  setting-Returns : (key : String) → Returns e (λ _. Unit {0}) (setting J cfg key)
  unfolding setting
  setting-Returns key =
      let (s, h) = has.text key in
      bind-Returns {R = λ v. v ≡ has.member key} _ _ (lift-Returns _ _ (has.reads key) refl)
        λ v same. lift-Returns _ s (ap J.as_string same ∙ h) tt

  construct-Returns :
      (exists : String → Bool) (url : String) (ssl : Bool)
      → Returns e Fresh (construct J cfg exists url ssl)
  unfolding construct
  construct-Returns exists url ssl = bind-Returns _ _ (setting-Returns "SSL_key") λ key _.
      bind-Returns _ _ (setting-Returns "SSL_cert") λ cert _.
        bind-Returns _ _ (setting-Returns "SSL_verify") λ verify _.
          if-Returns _ _ _
            (bind-Returns _ _ (emit-Returns _) λ _ _. pure-Returns _ (refl, refl, refl))
            (pure-Returns _ (refl, refl, refl))

  -- A request throws.
  answer_of-Settles : (m url : String) → Settles e (λ _. ⊥) (answer_of m url)
  answer_of-Settles m url = bind-Settles _ _ (Returns-Settles (emit-Returns _)) λ _ _.
      ask_or_throw-Settles _ λ w. subst (Ends λ _. ⊥) (sym (off.fails w.trace m url)) (badly _)

  request-Settles : (c : HttpClient) (m path : String) → Settles e (λ _. ⊥) (request J cfg c m path)
  unfolding request
  request-Settles c m path =
      if-Settles c.use_ssl _ _
        (bind-Settles _ _ (Returns-Settles (setting-Returns "SSL_key")) λ key _.
          bind-Settles _ _ (Returns-Settles (setting-Returns "SSL_cert")) λ cert _.
            bind-Settles _ _ (Returns-Settles (setting-Returns "SSL_verify")) λ verify _.
              bind-Settles {R = λ v. v ≡ has.member "SSL_verify_name"} _ _
                (Returns-Settles (lift-Returns _ _ (has.reads "SSL_verify_name") refl))
                λ v same.
                  bind-Settles _ _
                    (Returns-Settles (
                      lift-Returns {Q = λ _. Unit {0}} _ has.flag.0 (ap J.as_bool same ∙ has.flag.1)
                        tt))
                    λ b _. answer_of-Settles m _)
        (answer_of-Settles m _)

  fetch-Returns : (c : HttpClient) (path : String) → Returns e (λ o. o ≡ none) (fetch J cfg c path)
  unfolding fetch
  fetch-Returns c path = catch-Returns _ _ failing λ _.
      catch-Returns _ _ failing λ x. bind-Returns _ _ (emit-Returns _) λ _ _. pure-Returns none refl
    where
      failing : Settles e (λ o. o ≡ none) (do text ← request J cfg c "GET" path; pure (some text))
      failing =
          bind-Settles {R = λ _. ⊥} _ _ (request-Settles c "GET" path)
            λ text none_such. elim none_such [ ]

  get_json-Returns :
      (c : HttpClient) (path : String) (result : J.Value)
      → Returns e (λ (r : HttpClient × J.Value × Bool). r.2 ≡ false) (get_json J cfg c path result)
  unfolding get_json cases
  get_json-Returns c path result =
      bind-Returns _ _ (fetch-Returns c path)
        λ answer failed. cases-none-Returns answer _ _ failed (pure-Returns _ refl)

  -- What `updateApi` does for a new client: the counters are 0, and the API is not read.
  update_ready-Returns :
      (a : AgentClient J) → Fresh a.client → Returns e (λ _. Unit {0}) (update_ready J cfg a)
  unfolding update_ready
  update_ready-Returns a fresh =
      bind-Returns {R = λ _. Unit {0}} _ _
        (if_cases-Returns _ _ _ (λ counted. clash counted (no_counts a.client fresh))
          (λ _. pure-Returns tt tt))
        λ _ _.
          bind-Returns _ _ (get_json-Returns _ "/api/swagger.json" a.api)
            λ (client, api, got) failed.
              if_cases-Returns got _ _ (λ h. clash h failed) (λ _. pure-Returns _ tt)

  module _ (reads : Reads e) where
    read_setting-Settles :
        (row : Row) (s : Settings) (step : Step)
        → Settles e (λ _. Unit {0}) (read_setting row s step)
    unfolding read_setting
    read_setting-Settles row s read_host =
        bind-Settles _ _ (ask_or_throw-Settles _ λ w. reads.cells row 0) λ t _. pure-Settles _ tt
    read_setting-Settles row s read_port =
        bind-Settles _ _ (ask_or_throw-Settles _ λ w. reads.cells row 1) λ t _. pure-Settles _ tt
    read_setting-Settles row s read_freq =
        bind-Settles _ _ (ask_or_throw-Settles _ λ w. reads.cells row 2) λ t _.
          bind-Settles _ _ (ask_or_throw-Settles _ λ w. reads.numbers t) λ n _. pure-Settles _ tt
    read_setting-Settles row s read_ssl =
        bind-Settles _ _ (ask_or_throw-Settles _ λ w. reads.cells row 3) λ t _. pure-Settles _ tt

    rows-Returns :
        (q : Query) (from msg : String) (rows : List Row) (s : Settings) (steps : List Step)
        → HasRow (some rows)
        → Returns e
            (λ _. Unit {0})
            (do
              row ← first_row rows
              read ← fold_caught q from msg steps s (read_setting row)
              pure (some read))
    unfolding first_row
    rows-Returns q from msg [] s steps h = absurd h
    rows-Returns q from msg (row ∷ rows) s steps h =
        bind-Returns _ _ (pure-Returns {Q = λ _. Unit {0}} row tt) λ r _.
          bind-Returns _ _ (fold_caught-Returns q from msg steps s _ (read_setting-Settles r))
            λ read _. pure-Returns _ tt

    read_settings-Returns :
        (id : ℕ) (s : Settings)
        → ((t : Trace) → Ends HasRow (e.store t (agent_query id)))
        → Returns e (λ _. Unit {0}) (read_settings id s)
    unfolding read_settings
    read_settings-Returns id s answers =
        bind-Returns {R = Holds HasRow} _ _
          (my_catch-Returns {Q = HasRow} _ _ _ _ (store-Settles _ answers))
          λ answer h.
            answered-Returns answer _ _ _ h (pure-Returns _ tt)
              (bind-Returns _ _ (emit-Returns _) λ _ _. pure-Returns none tt)
              λ rows there. rows-Returns _ _ _ rows s _ there

pub init_agent-Returns :
    (J : Jsoncpp) (cfg : J.Value) (exists : String → Bool) (a : AgentClient J) (e : Env)
    → HasSettings J cfg
    → Unanswered e
    → Reads e
    → Lends e
    → ((t : Trace) → Ends HasRow (e.store t (agent_query a.id)))
    → Returns e (λ _. Unit {0}) (init_agent J cfg exists a)
unfolding init_agent
init_agent-Returns J cfg exists a e has off reads lends answers =
    if-Returns a.ready _ _ (pure-Returns a tt) (
      with_connection-Returns _ _ _ _ lends (
        bind-Returns _ _ (read_settings-Returns J cfg has off reads a.id _ answers) λ found _.
          cases-Returns found _ _ (pure-Returns a tt) λ s.
            bind-Returns _ _ (construct-Returns J cfg has off exists s.baseurl s.use_ssl)
              λ client fresh. update_ready-Returns J cfg has off _ fresh))
