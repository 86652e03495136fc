-- ===== src/AgentClient/Current.antt =====
-- The clients that an agent has after `updateApi` has read its API.
use watched_back.Base.{
  ◌≡◌, refl, ap, ◌∙◌, sym, String, true, false, List, [], ◌∷◌, ◌++◌, All, arith, append_assoc,
  append-nil, if◌then◌else◌,
}
use watched_back.World.{Env, World, Outcome, returned}
use watched_back.Monad.{run, pure, fold_m, info, ◌>>◌}
use watched_back.Monad.Runs.{bind-returned, bind_run, lift-bind, run-pure}
use watched_back.Monad.Gives.{Gives, bind-Gives, pure-Gives}
use watched_back.Json.{Jsoncpp}
use watched_back.DbTools.{release}
use watched_back.Ressource.{Ressource, State}
use watched_back.AgentClient.{AgentClient}
use watched_back.AgentClient.Ressources.{Clients, has_client, create_ressources}
use watched_back.AgentClient.Tables.{create_tables}
use watched_back.AgentClient.Growth.{DistinctPaths, create_ressources-DistinctPaths}
use watched_back.AgentClient.Api.{has_path, keep_client, rebuild}

-- The clients whose path is among the keys.
abbrev current : List String → Clients → Clients
current ks [] = []
current ks ((r, s) ∷ cs) =
    let rest = current ks cs in if has_path r.baseurl ks then (r, s) ∷ rest else rest

abbrev pub AreCurrent : List String → Clients → Type 0
AreCurrent ks cs = All (λ c. has_path c.0.baseurl ks ≡ true) cs

current-AreCurrent : (ks : List String) (cs : Clients) → AreCurrent ks (current ks cs)
current-AreCurrent ks [] = tt
current-AreCurrent ks ((r, s) ∷ cs) = ground (arith, current-AreCurrent ks cs)

has_client-current :
    (j : String) (ks : List String) (cs : Clients)
    → has_client j cs ≡ false
    → has_client j (current ks cs) ≡ false
has_client-current j ks [] h = refl
has_client-current j ks ((r, s) ∷ cs) h = ground (arith, has_client-current j ks cs)

current-DistinctPaths :
    (ks : List String) (cs : Clients) → DistinctPaths cs → DistinctPaths (current ks cs)
current-DistinctPaths ks [] d = tt
current-DistinctPaths ks ((r, s) ∷ cs) (n, d) =
    ground (arith, has_client-current r.baseurl ks cs n, current-DistinctPaths ks cs d)

module _ (J : Jsoncpp) (cfg api paths : J.Value) (e : Env)
    (h : J.at api "paths" ≡ returned paths) where
  run-keep_client :
      (kept : Clients) (r : Ressource) (s : State) (w : World)
      → run (keep_client J cfg api kept (r, s)) e w
        ≡ (returned (if has_path r.baseurl (J.keys paths) then kept ++ (r, s) ∷ [] else kept), w)
  unfolding keep_client
  run-keep_client kept r s w = lift-bind (J.at api "paths") _ e w paths h ∙ run-pure _ e w

  keep_all :
      (cs kept : Clients) (w : World)
      → run (fold_m cs kept (keep_client J cfg api)) e w
        ≡ (returned (kept ++ current (J.keys paths) cs), w)
  unfolding fold_m
  keep_all [] kept w = rw append-nil (run-pure kept e w)
  keep_all ((r, s) ∷ cs) kept w =
      bind_run (keep_client J cfg api kept (r, s)) _ e w w _ (run-keep_client kept r s w)
      ∙ keep_all cs _ w
      ∙ ap (λ k. (returned k, w))
          (ground (arith, append_assoc kept ((r, s) ∷ []) (current (J.keys paths) cs)))

  -- What follows the loop changes only the clients.
  ends :
      (a : AgentClient J) (kept : Clients) (from msg : String)
      → Gives e
          (λ a'. a'.ressources ≡ kept)
          (info from msg >> (release a.address >> pure (record a { ressources = kept })))
  ends a kept from msg = bind-Gives _ _ λ _. bind-Gives _ _ λ _. pure-Gives _ refl

kept_of :
    (kept' kept : Clients) (w v : World)
    → ◌≡◌ {A = Outcome Clients × World} (returned kept', w) (returned kept, v)
    → kept ≡ kept'
kept_of kept' kept w v h = cc

-- An agent whose API has been read, and whose clients are each of a path of its own: the clients
-- that it has when `updateApi` has done the rest are each of a path of its own, and the API has
-- every one of these paths.
pub rebuild-AreCurrent :
    (J : Jsoncpp) (cfg paths : J.Value) (a a' : AgentClient J) (e : Env) (w : World)
    → J.at a.api "paths" ≡ returned paths
    → DistinctPaths a.ressources
    → (run (rebuild J cfg a) e w).0 ≡ returned a'
    → AreCurrent (J.keys paths) a'.ressources × DistinctPaths a'.ressources
unfolding rebuild
rebuild-AreCurrent J cfg paths a a' e w h d r =
    let (cs, v, made, rest) =
      bind-returned (create_ressources J a.address a.api a.ressources) _ e w a' r in
    let (u, x, tables, rest') = bind-returned (create_tables J a.address a.api) _ e v a' rest in
    let (kept, y, loop, rest'') =
      bind-returned (fold_m cs [] (keep_client J cfg a.api)) _ e x a' rest' in
    let same : kept ≡ current (J.keys paths) cs =
      kept_of _ kept x y (sym (keep_all J cfg a.api paths e h cs [] x) ∙ loop) in
    let all : a'.ressources ≡ current (J.keys paths) cs =
      (ends J cfg a.api paths e h a kept _ _).at y a' rest'' ∙ same in
    let distinct =
      create_ressources-DistinctPaths J a.address a.api a.ressources cs e w d
        (ap (λ o. o.0) made) in
    rw all (current-AreCurrent (J.keys paths) cs, current-DistinctPaths (J.keys paths) cs distinct)
