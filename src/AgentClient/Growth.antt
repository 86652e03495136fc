-- ===== src/AgentClient/Growth.antt =====
-- The clients that `createRessources` makes, and a path that stops it.
use Prim.Native.String.append
use watched_back.Base.{
  ℕ, ◌<◌, ◌≡◌, refl, ◌≢◌, ◌∙◌, ap, sym, String, ◌<>◌, Bool, false, not, none, some, List, [], ◌∷◌,
  ◌++◌, arith, str_eq, ◌==◌, eq_iff, size, rfind, substr,
}
use watched_back.World.{Env, World, returned, threw, std_exception}
use watched_back.Monad.{run, fold_m}
use watched_back.Monad.Runs.{bind-returned, lift-bind}
use watched_back.AgentClient.Stored.{run-with_connection}
use watched_back.Monad.Gives.{
  Gives, pure-Gives, bind-Gives, bind_with-Gives, if-Gives, fold_m-Gives,
}
use watched_back.Json.{Jsoncpp}
use watched_back.DbTools.{with_connection}
use watched_back.Ressource.{Ressource, State}
use watched_back.AgentClient.Paths.{ressource_of, named, is_history}
use watched_back.AgentClient.Ressources.{
  Clients, has_client, refresh, new_client, register, create_ressource, create_ressources,
}

-- No two clients are of the same path.
abbrev pub DistinctPaths : Clients → Type 0
DistinctPaths [] = Unit
DistinctPaths ((r, s) ∷ cs) = (has_client r.baseurl cs ≡ false) × DistinctPaths cs

pub record HasDistinctPaths (cs : Clients) : Type 0 where
  pub paths : DistinctPaths cs

has_client-refresh :
    (j key : String) (columns : List String) (cs : Clients)
    → has_client j (refresh key columns cs) ≡ has_client j cs
has_client-refresh j key columns [] = refl
has_client-refresh j key columns ((r, s) ∷ cs) = ground (arith, has_client-refresh j key columns cs)

refresh-DistinctPaths :
    (key : String) (columns : List String) (cs : Clients)
    → DistinctPaths cs
    → DistinctPaths (refresh key columns cs)
refresh-DistinctPaths key columns [] d = tt
refresh-DistinctPaths key columns ((r, s) ∷ cs) (n, d) =
    ground
      (arith, has_client-refresh r.baseurl key columns cs, refresh-DistinctPaths key columns cs d)

has_client-append :
    (j : String) (cs : Clients) (r : Ressource) (s : State)
    → has_client j cs ≡ false
    → str_eq r.baseurl j ≡ false
    → has_client j (cs ++ (r, s) ∷ []) ≡ false
has_client-append j [] r s n d = ground arith
has_client-append j ((q, t) ∷ cs) r s n d = ground (arith, has_client-append j cs r s)

append-DistinctPaths :
    (cs : Clients) (r : Ressource) (s : State)
    → DistinctPaths cs
    → has_client r.baseurl cs ≡ false
    → DistinctPaths (cs ++ (r, s) ∷ [])
append-DistinctPaths [] r s d n = (refl, tt)
append-DistinctPaths ((q, t) ∷ cs) r s (m, d) n = (
  has_client-append q.baseurl cs r s m
      (ground (arith, eq_iff q.baseurl r.baseurl, eq_iff r.baseurl q.baseurl)),
  append-DistinctPaths cs r s d (ground arith),
)

module _ (J : Jsoncpp) (this : ℕ) (api : J.Value) {e : Env} where
  new_client-Gives :
      (i : J.Value) (of_service : Bool) (owner resid : ℕ) (key tbl : String) (columns : List String)
      → Gives e
          (λ c. c.0.baseurl ≡ key)
          (new_client J this api i of_service owner resid key tbl columns)
  unfolding new_client
  new_client-Gives i of_service owner resid key tbl columns =
      bind-Gives _ _ λ service. bind-Gives _ _ λ s. pure-Gives _ refl

  register-Gives :
      (key : String) (i : J.Value) (named : String × String) (cs : Clients)
      → HasDistinctPaths cs
      → Gives e HasDistinctPaths (register J this api key i named cs)
  unfolding register
  register-Gives key i (origin, name) cs d = bind-Gives _ _ λ items. bind-Gives _ _ λ ref.
      bind-Gives _ _ λ known. bind-Gives _ _ λ _. bind-Gives _ _ λ resid. bind-Gives _ _ λ host.
        bind-Gives _ _ λ hostid.
          if-Gives (resid == 0) _ _ (λ z. pure-Gives cs d)
            λ nz. bind-Gives _ _ λ of_service. bind-Gives _ _ λ owner. bind-Gives _ _ λ properties.
              if-Gives (has_client key cs) _ _
                (λ old. pure-Gives _ (record { paths = refresh-DistinctPaths key _ cs d.paths }))
                (λ new.
                  bind_with-Gives _ _ (new_client-Gives i of_service owner resid key _ _)
                    λ (r, s) u.
                      pure-Gives _
                        (record { paths = append-DistinctPaths cs r s d.paths (rw u new) }))

  create_ressource-Gives :
      (paths : J.Value) (cs : Clients) (key : String)
      → HasDistinctPaths cs
      → Gives e HasDistinctPaths (create_ressource J this api paths cs key)
  unfolding create_ressource
  create_ressource-Gives paths cs key d = bind-Gives _ _ λ named.
      if-Gives (not (is_history key)) _ _ (λ skipped. pure-Gives cs d)
        λ kept. bind-Gives _ _ λ i.
          bind-Gives _ _
            λ get. if-Gives get _ _ (λ y. register-Gives key i named cs d) (λ n. pure-Gives cs d)

  create_ressources-Gives :
      (cs : Clients)
      → HasDistinctPaths cs
      → Gives e HasDistinctPaths (create_ressources J this api cs)
  unfolding create_ressources with_connection
  create_ressources-Gives cs d = bind-Gives _ _ λ got.
      if-Gives got _ _
        (λ y. bind-Gives _ _ λ paths.
          fold_m-Gives (J.keys paths) cs _ d λ cs' key. create_ressource-Gives paths cs' key)
        (λ n. bind-Gives _ _ λ _. pure-Gives cs d)

-- Whatever API an agent documents and whatever the server answers: if no two of the agent's clients
-- are of the same path, that is so of the clients that `createRessources` returns too. So reading
-- the API again brings its clients up to date and doubles none.
pub create_ressources-DistinctPaths :
    (J : Jsoncpp) (this : ℕ) (api : J.Value) (cs cs' : Clients) (e : Env) (w : World)
    → DistinctPaths cs
    → (run (create_ressources J this api cs) e w).0 ≡ returned cs'
    → DistinctPaths cs'
create_ressources-DistinctPaths J this api cs cs' e w d h =
    ((create_ressources-Gives J this api cs (record { paths = d })).at w cs' h).paths

named-short : (s : String) → size s < 7 → named s ≡ threw (std_exception "basic_string::substr")
named-short s h = ground (arith, h)

-- A path of one short part, such as `/all`.
pub record IsShort (key : String) : Type 0 where
  pub rest : String
  pub path : key ≡ "/" <> rest
  pub no_slash : rfind b'/' rest ≡ none
  pub short : size rest < 7

rfind-slash : (s : String) → rfind b'/' s ≡ none → rfind b'/' ("/" <> s) ≡ some 0
rfind-slash s h = rw (append.cons _ String.[] s, append.nil s) (ground (arith, h))

after_first : (s : String) → substr ("/" <> s) 1 none ≡ some s
after_first s = rw (append.cons _ String.[] s, append.nil s) (ground arith)

ressource_of-short :
    (key : String) → IsShort key → ressource_of key ≡ threw (std_exception "basic_string::substr")
ressource_of-short key k =
    rw (k.path, rfind-slash k.rest k.no_slash, after_first k.rest) (named-short k.rest k.short)

create_ressource-threw :
    (J : Jsoncpp) (this : ℕ) (api paths : J.Value) (cs : Clients) (key : String) (e : Env)
    (w : World)
    → IsShort key
    → run (create_ressource J this api paths cs key) e w
      ≡ (threw (std_exception "basic_string::substr"), w)
unfolding run create_ressource
create_ressource-threw J this api paths cs key e w k = rw (ressource_of-short key k) refl

create_all_threw :
    (J : Jsoncpp) (this : ℕ) (api paths : J.Value) (before after : List String) (key : String)
    (cs cs' : Clients) (e : Env) (w : World)
    → IsShort key
    → (run (fold_m (before ++ key ∷ after) cs (create_ressource J this api paths)) e w).0
      ≢ returned cs'
unfolding fold_m
create_all_threw J this api paths [] after key cs cs' e w k h =
    let (a, v, r, rest) = bind-returned (create_ressource J this api paths cs key) _ e w cs' h in
    cc (create_ressource-threw J this api paths cs key e w k)
create_all_threw J this api paths (x ∷ before) after key cs cs' e w k h =
    let (a, v, r, rest) = bind-returned (create_ressource J this api paths cs x) _ e w cs' h in
    create_all_threw J this api paths before after key a cs' e v k rest

-- An agent whose API documents a path of one part of fewer than 7 characters, such as `/all`, which
-- need be no path that is kept: `createRessources` of a connected client never returns, whatever
-- the other paths are and whatever the server answers.
pub create_ressources-short :
    (J : Jsoncpp) (this c : ℕ) (api paths : J.Value) (before after : List String) (key : String)
    (cs cs' : Clients) (e : Env) (w : World)
    → w.conn this ≡ some c
    → J.at api "paths" ≡ returned paths
    → J.keys paths ≡ before ++ key ∷ after
    → IsShort key
    → (run (create_ressources J this api cs) e w).0 ≢ returned cs'
unfolding create_ressources
create_ressources-short J this c api paths before after key cs cs' e w h p ks k r = all_keys (
    sym (
      ap (λ o. o.0)
        (run-with_connection this "agentClient::createRessources" cs _ c e w h
          ∙ lift-bind (J.at api "paths") _ e w paths p))
    ∙ r)
  where
    all_keys :
        (run (fold_m (J.keys paths) cs (create_ressource J this api paths)) e w).0 ≢ returned cs'
    all_keys = rw ks (create_all_threw J this api paths before after key cs cs' e w k)
