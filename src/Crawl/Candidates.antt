-- ===== src/Crawl/Candidates.antt =====
-- The loop over a page's candidates against `_queue_candidate`, which it repeats inline.
use pwnproxy.Prelude.{
  arith, ℕ, ◌+◌, String, Bool, true, not, ◌||◌, List, [], ◌∷◌, leb, ◌==◌, ==_iff, ==_refl,
  string_eq, if◌then◌else◌, ◌≡◌, refl, subst, sym, ◌∙◌, ap, All, All-map, Bool-cases, inl, inr,
  if-holds,
}
use pwnproxy.Session.Scope.{Urls, ScopeConfig, is_in_scope}
use pwnproxy.Crawl.{
  CrawlConfig, CrawlEngine, has, path_key, is_barred, enqueue, count_queued, count_discovered,
  queue_candidate, consider, collect, add_seeds, new_engine,
}

-- what holds of the members of a set
pub All-has : (P : String → Type 0) (s : List String) (x : String) → All P s → has s x ≡ true → P x
All-has P [] x a h = absurd (ground arith)
All-has P (y ∷ s) x a h = elim (Bool-cases (y == x)) [
  | inl e ↦ subst P ((==_iff y x).0 e) a.0
  | inr n ↦ All-has P s x a.1 (ground arith)
]

pub has-cons : (s : List String) (y x : String) → has s x ≡ true → has (y ∷ s) x ≡ true
has-cons s y x h = ground arith

module _ (urls : Urls) where
  -- the path of each visited URL is a visited path
  abbrev pub IsKeyed : CrawlEngine → Type 0
  IsKeyed e = All (λ u. has e.visited_paths (path_key urls u) ≡ true) e.visited

  IsKeyed-add :
      (ps us : List String) (url : String)
      → All (λ u. has ps (path_key urls u) ≡ true) us
      → All (λ u. has (path_key urls url ∷ ps) (path_key urls u) ≡ true) (url ∷ us)
  IsKeyed-add ps us url a = (
    ground (arith, ==_refl (path_key urls url)),
    All-map (λ u h. has-cons ps (path_key urls url) (path_key urls u) h) us a,
  )

  add_seeds-IsKeyed :
      (seeds : List String) (e : CrawlEngine) → IsKeyed e → IsKeyed (add_seeds urls seeds e)
  unfolding add_seeds
  add_seeds-IsKeyed [] e a = a
  add_seeds-IsKeyed (seed ∷ seeds) e a =
      add_seeds-IsKeyed seeds _ (IsKeyed-add e.visited_paths e.visited seed a)

  pub new_engine-IsKeyed : (config : CrawlConfig) → IsKeyed (new_engine urls config)
  unfolding new_engine
  new_engine-IsKeyed config = add_seeds-IsKeyed config.seeds _ tt

  module _ (config : CrawlConfig) (scope : ScopeConfig) (disallow_paths : List String) where
    -- one call of `_queue_candidate`, which counts what it added as discovered
    abbrev pub offer : ℕ → String → CrawlEngine → CrawlEngine
    offer depth url e =
        let answer = queue_candidate urls config scope disallow_paths url depth e in
        if answer.1 then count_discovered urls config scope disallow_paths answer.0 else answer.0

    unfoldable pub offer_all : ℕ → List String → CrawlEngine → CrawlEngine
    offer_all depth [] e = e
    offer_all depth (url ∷ links) e = offer_all depth links (offer depth url e)

    consider-offer :
        (depth : ℕ) (url : String) (e : CrawlEngine)
        → IsKeyed e
        → consider urls config scope disallow_paths depth url e ≡ offer depth url e
    unfolding consider queue_candidate
    consider-offer depth url e a = elim (Bool-cases (has e.visited url)) [
      | inl v ↦
          let p = All-has (λ u. has e.visited_paths (path_key urls u) ≡ true) e.visited url a v in
          ground arith
      | inr v ↦ ground arith
    ]

    pub consider-IsKeyed :
        (depth : ℕ) (url : String) (e : CrawlEngine)
        → IsKeyed e
        → IsKeyed (consider urls config scope disallow_paths depth url e)
    unfolding consider enqueue count_queued count_discovered
    consider-IsKeyed depth url e a =
        if-holds IsKeyed (not (is_in_scope urls scope url)) (λ _. a)
          (λ _.
            if-holds IsKeyed (has e.visited_paths (path_key urls url)) (λ _. a)
              (λ _.
                if-holds IsKeyed (is_barred urls config scope disallow_paths url) (λ _. a)
                  (λ _.
                    if-holds IsKeyed (leb (depth + 1) config.depth)
                      (λ _. IsKeyed-add e.visited_paths e.visited url a) (λ _. a))))

    pub collect-IsKeyed :
        (depth : ℕ) (links seen : List String) (e : CrawlEngine)
        → IsKeyed e
        → IsKeyed (collect urls config scope disallow_paths depth links seen e)
    unfolding collect
    collect-IsKeyed depth [] seen e a = a
    collect-IsKeyed depth (url ∷ links) seen e a =
        if-holds IsKeyed (has seen url) (λ _. collect-IsKeyed depth links seen e a)
          (λ _. collect-IsKeyed depth links (url ∷ seen) _ (consider-IsKeyed depth url e a))

    -- a URL that `consider` turns away
    abbrev rejects : ℕ → CrawlEngine → String → Bool
    rejects depth e url =
        not (is_in_scope urls scope url)
        || (has e.visited_paths (path_key urls url)
            || (is_barred urls config scope disallow_paths url
                || not (leb (depth + 1) config.depth)))

    rejects_lem :
        (depth : ℕ) (url : String) (e : CrawlEngine)
        → rejects depth e url ≡ true
        → consider urls config scope disallow_paths depth url e ≡ e
    unfolding consider
    rejects_lem depth url e h = ground arith

    consider-rejects :
        (depth : ℕ) (url : String) (e : CrawlEngine)
        → rejects depth (consider urls config scope disallow_paths depth url e) url ≡ true
    unfolding consider enqueue count_queued count_discovered
    consider-rejects depth url e = ground (arith, ==_refl (path_key urls url))

    consider-keeps :
        (depth : ℕ) (url other : String) (e : CrawlEngine)
        → rejects depth e other ≡ true
        → rejects depth (consider urls config scope disallow_paths depth url e) other ≡ true
    unfolding consider enqueue count_queued count_discovered
    consider-keeps depth url other e h = ground arith

    collect-offer_all :
        (depth : ℕ) (links seen : List String) (e : CrawlEngine)
        → IsKeyed e
        → All (λ u. rejects depth e u ≡ true) seen
        → collect urls config scope disallow_paths depth links seen e ≡ offer_all depth links e
    unfolding collect offer_all
    collect-offer_all depth [] seen e a r = refl
    collect-offer_all depth (url ∷ links) seen e a r =
        let eq = consider-offer depth url e a in
        elim (Bool-cases (has seen url)) [
          | inl s ↦
              let same =
                rejects_lem depth url e (All-has (λ u. rejects depth e u ≡ true) seen url r s) in
              rw s (
                collect-offer_all depth links seen e a r
                ∙ ap (offer_all depth links) (sym same ∙ eq))
          | inr s ↦
              let after = consider urls config scope disallow_paths depth url e in
              rw s (
                collect-offer_all depth links (url ∷ seen) after (consider-IsKeyed depth url e a) (
                  consider-rejects depth url e,
                  All-map (λ u h. consider-keeps depth url u e h) seen r,
                )
                ∙ ap (offer_all depth links) eq)
        ]

    -- Collecting the links of a page, which tests scope, path, robots rules and depth inline and
    -- skips the links it has seen on the page, does what offering every link, repeated ones
    -- included, to `_queue_candidate` does, each addition counted as discovered; provided the paths
    -- of the visited URLs are visited paths.
    pub collect-offers :
        (depth : ℕ) (links : List String) (e : CrawlEngine)
        → IsKeyed e
        → collect urls config scope disallow_paths depth links [] e ≡ offer_all depth links e
    collect-offers depth links e a = collect-offer_all depth links [] e a tt
