-- ===== src/Interceptor/Release.antt =====
-- What the interceptor lets go.
use pwnproxy.Prelude.{
  ◌≡◌, ℕ, ltb, length, take, take_all, if_false, ◌&&◌, refl, sym, ap, ◌∙◌, subst, String, Bool,
  true, false, ◌⊎◌, Option, none, some, Option-cases, inl, inr, List, [], ◌∷◌, ◌++◌, append_assoc,
  any_of, arith, ◌==◌, ==_iff, string_eq, if◌then◌else◌, if-holds, Bool-cases,
}
use pwnproxy.Dict.{Dict, put, remove, get-put, get-remove, get-remove_self}
use pwnproxy.Dict
use pwnproxy.Interceptor.{
  Headers, Body, Request, HttpFlow, intercept, max_body, from_mitmproxy, cut, Released, resumed,
  Interceptor, let_go, each, keys, resume_all, set_enabled, edit, set_headers, forward_with_edits,
}
use pwnproxy.Interceptor.Snapshots.{each-holds}

-- The flow has been resumed.
abbrev pub IsResumed : HttpFlow → Interceptor → Type 0
IsResumed f s = (before after : List Released) × (s.released ≡ before ++ resumed f ∷ after)

let_go-IsResumed :
    (id : String) (f : HttpFlow) (s : Interceptor)
    → IsResumed f s
    → IsResumed f (let_go resumed id s)
unfolding let_go
let_go-IsResumed id f s (before, after, h) = elim (Option-cases (Dict.get s.intercepted id)) [
  | inl e ↦ rw (e, let_go) (before, after, h)
  | inr (g, e) ↦
      rw (e, let_go)
        (
          before,
          after ++ resumed g ∷ [],
          ap (λ l. l ++ resumed g ∷ []) h
              ∙ append_assoc before (resumed f ∷ after) (resumed g ∷ []),
        )
]

abbrev has : String → List String → Bool
has id ids = any_of (λ i. i == id) ids

keys-has :
    (d : Dict String HttpFlow) (id : String) (f : HttpFlow)
    → Dict.get d id ≡ some f
    → has id (keys d) ≡ true
unfolding Dict.get
keys-has [] id f h = cc h
keys-has ((k, v) ∷ d) id f h = ground (arith, keys-has d id f)

let_go-intercepted :
    (k id : String) (s : Interceptor)
    → Dict.get (let_go resumed k s).intercepted id
      ≡ (if k == id then none else Dict.get s.intercepted id)
unfolding let_go
let_go-intercepted k id s = elim (Option-cases (Dict.get s.intercepted k)) [
  | inl e ↦ rw (e, let_go) (missing e)
  | inr (f, e) ↦ rw (e, let_go) (get-remove s.intercepted k id)
]
  where
    missing :
        Dict.get s.intercepted k ≡ none
        → Dict.get s.intercepted id ≡ (if k == id then none else Dict.get s.intercepted id)
    missing e =
        if-holds (λ (o : Option HttpFlow). Dict.get s.intercepted id ≡ o) (k == id)
          (λ q. subst (λ i. Dict.get s.intercepted i ≡ none) ((==_iff k id).0 q) e) (λ _. refl)

let_go-held :
    (k : String) (f : HttpFlow) (s : Interceptor)
    → Dict.get s.intercepted k ≡ some f
    → IsResumed f (let_go resumed k s)
unfolding let_go
let_go-held k f s e = rw (e, let_go) (s.released, [], refl)

-- of a held flow and a list of ids: it is resumed in the loop, if its id is among them
resume_each :
    (ids : List String) (id : String) (f : HttpFlow) (s : Interceptor)
    → Dict.get s.intercepted id ≡ some f
    → has id ids ≡ true
    → IsResumed f (each (let_go resumed) ids s)
resume_each [] id f s h m = cc m
resume_each (k ∷ ids) id f s h m = elim (Bool-cases (k == id)) [
  | inl q ↦
      each-holds (IsResumed f) (let_go resumed) (λ i u. let_go-IsResumed i f u) ids
        (let_go resumed k s)
        (let_go-held k f s
          (subst (λ i. Dict.get s.intercepted i ≡ some f) (sym ((==_iff k id).0 q)) h))
  | inr q ↦
      resume_each ids id f (let_go resumed k s) (ground (arith, let_go-intercepted k id s))
        (ground arith)
]

empty_each :
    (ids : List String) (id : String) (s : Interceptor)
    → (has id ids ≡ true) ⊎ (Dict.get s.intercepted id ≡ none)
    → Dict.get (each (let_go resumed) ids s).intercepted id ≡ none
empty_each [] id s (inl h) = cc h
empty_each [] id s (inr h) = h
empty_each (k ∷ ids) id s h =
    empty_each ids id (let_go resumed k s) (ground (arith, let_go-intercepted k id s))

let_go_enabled : (id : String) (s : Interceptor) → (let_go resumed id s).enabled ≡ s.enabled
unfolding let_go
let_go_enabled id s = elim (Option-cases (Dict.get s.intercepted id)) [
  | inl e ↦ rw (e, let_go) refl
  | inr (f, e) ↦ rw (e, let_go) refl
]

each_enabled :
    (ids : List String) (s : Interceptor) → (each (let_go resumed) ids s).enabled ≡ s.enabled
each_enabled [] s = refl
each_enabled (id ∷ ids) s = each_enabled ids (let_go resumed id s) ∙ let_go_enabled id s

-- Switching an interceptor off leaves it off, so that it takes no flow that comes afterwards; it
-- resumes every flow that it holds, then holds none, and has nothing pending and no snapshot.
pub set_enabled_off :
    (s : Interceptor)
    → s.enabled ≡ true
    → ((set_enabled false s).enabled ≡ false)
      × ((allowed : Bool) (g : HttpFlow)
          → intercept allowed g (set_enabled false s) ≡ set_enabled false s)
      × ((id : String) (f : HttpFlow)
          → Dict.get s.intercepted id ≡ some f
          → IsResumed f (set_enabled false s))
      × ((id : String) → Dict.get (set_enabled false s).intercepted id ≡ none)
      × ((set_enabled false s).pending ≡ [])
      × ((set_enabled false s).snapshots ≡ [])
unfolding set_enabled resume_all intercept
set_enabled_off s h =
    let off = record s { enabled = false } in
    let stays = each_enabled (keys s.intercepted) off in
    rw (h, set_enabled)
      (
        stays,
        λ allowed g. if_false _ _ _ (ap (λ b. b && allowed) stays),
        λ id f e. resume_each (keys s.intercepted) id f off e (keys-has s.intercepted id f e),
        λ id.
            empty_each (keys s.intercepted) id off
              (elim (Option-cases (Dict.get s.intercepted id)) [
                | inl e ↦ inr e
                | inr (f, e) ↦ inl (keys-has s.intercepted id f e)
              ]),
        refl,
        refl,
      )

let_go-released :
    (release : HttpFlow → Released) (id : String) (f : HttpFlow) (s : Interceptor)
    → Dict.get s.intercepted id ≡ some f
    → (let_go release id s).released ≡ s.released ++ release f ∷ []
unfolding let_go
let_go-released release id f s e = rw (e, let_go) refl

-- `cut` leaves the first MiB.
cut-some :
    (content : Body) (bytes : List ℕ)
    → content ≡ some bytes
    → cut content ≡ some (take 1048576 bytes)
cut-some content bytes h =
    subst (λ c. cut c ≡ some (take 1048576 bytes)) (sym h)
      (ap some (
        if-holds (λ l. l ≡ take 1048576 bytes) (ltb max_body (length bytes)) (λ _. refl)
          (λ short. sym (take_all 1048576 bytes (ground (arith, short))))))

-- A held request that the user forwards as it was shown, without a change, is resumed with its
-- method and URL; of its body, the first 1,048,576 bytes are left, and it has none if it had none.
pub forward_unedited :
    (set_header : Headers → String → String → Headers) (id : String) (s : Interceptor)
    (f : HttpFlow) (r : Request)
    → Dict.get s.intercepted id ≡ some f
    → f.request ≡ some r
    → (g : HttpFlow) × (q : Request) × ((forward_with_edits set_header id
          (from_mitmproxy f)
          s).released
        ≡ s.released ++ resumed g ∷ [])
      × (g.request ≡ some q)
      × (q.method ≡ r.method)
      × (q.url ≡ r.url)
      × ((bytes : List ℕ) → r.content ≡ some bytes → q.content ≡ some (take 1048576 bytes))
      × (r.content ≡ none → q.content ≡ none)
unfolding forward_with_edits let_go from_mitmproxy
forward_unedited set_header id s f r h e =
    let q : Request = record {
      method = r.method;
      url = r.url;
      headers = set_headers set_header (from_mitmproxy f).request_headers [];
      content = cut r.content;
    } in
    (
      edit set_header (from_mitmproxy f) f,
      q,
      rw (h, forward_with_edits)
          (let_go-released (λ g. resumed (edit set_header (from_mitmproxy f) g)) id f s h),
      rw (e, from_mitmproxy) refl,
      refl,
      refl,
      λ bytes k. cut-some r.content bytes k,
      λ k. ap cut k,
    )
