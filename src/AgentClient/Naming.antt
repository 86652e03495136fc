-- ===== src/AgentClient/Naming.antt =====
-- The two forms of a path, and what `createRessources` reads from them.
use Prim.Native.String.append
use watched_back.Base.{
  ℕ, suc, ◌+◌, ◌≡◌, refl, ap, ◌∙◌, sym, String, ◌<>◌, Option, none, some, arith, size, substr, find,
  rfind, take_text, drop_text,
}
use watched_back.World.{returned}
use watched_back.AgentClient.Paths.{ressource_of, named, service_name, count_before}

rfind-append :
    (c : ℕ) (s t : String) (i : ℕ) → rfind c t ≡ some i → rfind c (s <> t) ≡ some (size s + i)
rfind-append c String.[] t i h = rw (append.nil t) (ground (arith, h))
rfind-append c (String.◌∷◌ d s) t i h =
    rw (append.cons d s t) (ground (arith, rfind-append c s t i h))

-- The first of the characters is in `t`, if `s` has none.
find-append :
    (c : ℕ) (s t : String) (i : ℕ)
    → find c s ≡ none
    → find c t ≡ some i
    → find c (s <> t) ≡ some (size s + i)
find-append c String.[] t i n h = rw (append.nil t) (ground (arith, h))
find-append c (String.◌∷◌ d s) t i n h =
    rw (append.cons d s t) (ground (arith, find-append c s t i, n))

pub text_assoc : (a b c : String) → (a <> b) <> c ≡ a <> (b <> c)
text_assoc String.[] b c = rw (append.nil b, append.nil (b <> c)) refl
text_assoc (String.◌∷◌ d a) b c =
    rw (append.cons d a b, append.cons d (a <> b) c, append.cons d a (b <> c), text_assoc a b c)
      refl

size-append : (s t : String) → size (s <> t) ≡ size s + size t
size-append String.[] t = rw (append.nil t) (omega arith)
size-append (String.◌∷◌ d s) t = rw (append.cons d s t) (omega (arith, size-append s t))

take_text-append : (s t : String) → take_text (size s) (s <> t) ≡ s
take_text-append String.[] t = refl
take_text-append (String.◌∷◌ d s) t =
    rw (append.cons d s t) (ap (String.◌∷◌ d) (take_text-append s t))

drop_text-append : (s t : String) → drop_text (size s) (s <> t) ≡ t
drop_text-append String.[] t = append.nil t
drop_text-append (String.◌∷◌ d s) t = rw (append.cons d s t) (drop_text-append s t)

substr-append : (s t : String) → substr (s <> t) (size s) none ≡ some t
substr-append s t = ground (arith, size-append s t, drop_text-append s t)

substr-append_middle : (a b c : String) → substr (a <> (b <> c)) (size a) (some (size b)) ≡ some b
substr-append_middle a b c =
    ground (arith, size-append a (b <> c), drop_text-append a (b <> c), take_text-append b c)

-- What stands between the first slash and the last.
last_slash :
    (res : String) → count_before (rfind b'/' ("/" <> (res <> "/history"))) ≡ some (size res)
last_slash res = ap count_before (
    rfind-append b'/' "/" (res <> "/history") _ (rfind-append b'/' res "/history" 0 refl)
    ∙ one_more (size res))
  where
    one_more : (n : ℕ) → ◌≡◌ {A = Option ℕ} (some (size "/" + (n + 0))) (some (suc n))
    one_more n = ap some (omega arith)

ressource_of-named : (res : String) → ressource_of ("/" <> (res <> "/history")) ≡ named res
ressource_of-named res = rw (last_slash res, substr-append_middle "/" res "/history") refl

substr-start : (s t : String) → substr (s <> t) 0 (some (size s)) ≡ some s
substr-start s t = ground (arith, take_text-append s t)

named-host : (name : String) → named ("system/" <> name) ≡ returned ("host", name)
named-host name = rw (substr-start "system/" name, substr-append "system/" name) refl

substr_at : (res a b : String) (n : ℕ) → res ≡ a <> b → n ≡ size a → substr res n none ≡ some b
substr_at res a b n h k = rw (h, k) (substr-append a b)

-- The name of a service: one character and the others.
module _ (one s rest : String) (h : size one ≡ 1) (n : find b'/' s ≡ none) where
  tail : String
  tail = s <> ("/" <> rest)

  read_tail : substr ("service/" <> (one <> tail)) 9 none ≡ some tail
  read_tail =
      substr_at _ ("service/" <> one) tail 9 (sym (text_assoc "service/" one tail))
        (omega (arith, size-append "service/" one, h))

  slash_found : find b'/' tail ≡ some (size s + 0)
  unfolding tail
  slash_found = find-append b'/' s ("/" <> rest) 0 n (rw (append.cons _ _ _) refl)

  read_rest : substr ("service/" <> (one <> tail)) (size s + 0 + 10) none ≡ some rest
  unfolding tail
  read_rest =
      substr_at _ ("service/" <> (one <> (s <> "/"))) rest _
        (sym (
          text_assoc "service/" _ rest
          ∙ ap (λ t. "service/" <> t)
              (text_assoc one _ rest ∙ ap (λ t. one <> t) (text_assoc s "/" rest))))
        (omega (
          arith,
          size-append "service/" (one <> (s <> "/")),
          size-append one (s <> "/"),
          size-append s "/",
          h,
        ))

  service_name_lem : service_name ("service/" <> (one <> tail)) ≡ returned rest
  service_name_lem = rw (read_tail, slash_found, read_rest) refl

  start_differs : (t : String) → substr ("service/" <> t) 0 (some 7) ≡ some "service"
  start_differs t = rw (text_assoc "service" "/" t) (substr-start "service" ("/" <> t))

  named-service : named ("service/" <> (one <> tail)) ≡ returned ("service", rest)
  named-service = rw (start_differs (one <> tail), service_name_lem) refl

-- The two forms of a path that an agent documents. The path of a host's metric, `/system/`, any
-- name, `/history`, gives that name, of the host. The path of a service's, `/service/`, a name
-- without a slash (one character and the others), a slash, any name, `/history`, gives that last
-- name, of the service.
pub ressource_of-path :
    (name one s rest : String)
    → size one ≡ 1
    → find b'/' s ≡ none
    → (ressource_of ("/" <> ("system/" <> name <> "/history")) ≡ returned ("host", name))
      × (ressource_of ("/" <> (("service/" <> (one <> (s <> ("/" <> rest)))) <> "/history"))
          ≡ returned ("service", rest))
unfolding tail
ressource_of-path name one s rest h n = (
  ap ressource_of (ap (λ t. "/" <> t) (sym (text_assoc "system/" name "/history")))
      ∙ ressource_of-named ("system/" <> name)
      ∙ named-host name,
  ressource_of-named ("service/" <> (one <> tail one s rest h n)) ∙ named-service one s rest h n,
)
