-- ===== src/Crawl/Frontier.antt =====
-- What a crawl has fetched, is about to fetch and has queued: URLs that no other entry repeats.
use pwnproxy.Prelude.{
  arith, ℕ, ◌+◌, ◌≤◌, String, true, false, not, List, [], ◌∷◌, ◌++◌, append_assoc, leb, leb→le,
  ==_iff, ==_refl, string_eq, ◌≡◌, ◌≢◌, refl, sym, subst, ◌⊎◌, inl, inr, All, All-append, All-map,
  if-holds,
}
use pwnproxy.Prelude.Distinct.{Distinct, Distinct-snoc, Distinct-omit, All-omit}
use pwnproxy.Session.Scope.{Urls, ScopeConfig, is_in_scope}
use pwnproxy.Crawl.{
  CrawlConfig, QueueEntry, CrawlEngine, has, path_key, is_barred, enqueue, count_queued,
  count_discovered, consider, collect, add_seeds, new_engine,
}
use pwnproxy.Crawl.Candidates.{has-cons}

module _ (urls : Urls) (config : CrawlConfig) (scope : ScopeConfig)
    (disallow_paths : List String) where
  abbrev pub entry_key : QueueEntry → String
  entry_key x = path_key urls x.url

  -- a seed, or a link that the scope, the robots rules and the depth admit
  abbrev pub IsFit : QueueEntry → Type 0
  IsFit x =
      (x.depth ≡ 0) × (has config.seeds x.url ≡ true)
      ⊎ (1 ≤ x.depth)
        × (x.depth ≤ config.depth)
        × (is_in_scope urls scope x.url ≡ true)
        × (is_barred urls config scope disallow_paths x.url ≡ false)

  abbrev pub IsFrontier : List String → List QueueEntry → Type 0
  IsFrontier paths xs =
      All (λ x. has paths (entry_key x) ≡ true) xs × Distinct entry_key xs × All IsFit xs

  differs :
      (paths : List String) (url : String) (x : QueueEntry)
      → has paths (path_key urls url) ≡ false
      → has paths (entry_key x) ≡ true
      → path_key urls url ≢ entry_key x
  differs paths url x n h e = let same = subst (λ k. has paths k ≡ true) (sym e) h in ground arith

  IsFrontier-snoc :
      (paths : List String) (xs : List QueueEntry) (x : QueueEntry)
      → IsFrontier paths xs
      → has paths (entry_key x) ≡ false
      → IsFit x
      → IsFrontier (entry_key x ∷ paths) (xs ++ x ∷ [])
  IsFrontier-snoc paths xs x f n fit = (
    All-append (λ y. has (entry_key x ∷ paths) (entry_key y) ≡ true) xs (x ∷ [])
        (All-map (λ y h. has-cons paths (entry_key x) (entry_key y) h) xs f.0)
        (ground (arith, ==_refl (entry_key x)), tt),
    Distinct-snoc entry_key xs x f.1 (All-map (λ y h. differs paths x.url y n h) xs f.0),
    All-append IsFit xs (x ∷ []) f.2 (fit, tt),
  )

  pub IsFrontier-omit :
      (paths : List String) (xs : List QueueEntry) (x : QueueEntry) (ys : List QueueEntry)
      → IsFrontier paths (xs ++ x ∷ ys)
      → IsFrontier paths (xs ++ ys)
  IsFrontier-omit paths xs x ys f = (
    All-omit (λ y. has paths (entry_key y) ≡ true) xs x ys f.0,
    Distinct-omit entry_key xs x ys f.1,
    All-omit IsFit xs x ys f.2,
  )

  -- behind the entries before the queue
  abbrev pub Extends : List QueueEntry → CrawlEngine → Type 0
  Extends before e = IsFrontier e.visited_paths (before ++ e.queue)

  enqueue-Extends :
      (before : List QueueEntry) (url : String) (depth : ℕ) (e : CrawlEngine)
      → Extends before e
      → has e.visited_paths (path_key urls url) ≡ false
      → IsFit (record { url = url; depth = depth })
      → Extends before (enqueue urls config scope disallow_paths url depth e)
  unfolding enqueue
  enqueue-Extends before url depth e f n fit =
      let x : QueueEntry = record { url = url; depth = depth } in
      subst (IsFrontier (path_key urls url ∷ e.visited_paths))
        (append_assoc before e.queue (x ∷ []))
        (IsFrontier-snoc e.visited_paths (before ++ e.queue) x f n fit)

  consider-Extends :
      (before : List QueueEntry) (depth : ℕ) (url : String) (e : CrawlEngine)
      → Extends before e
      → Extends before (consider urls config scope disallow_paths depth url e)
  unfolding consider count_queued count_discovered
  consider-Extends before depth url e f =
      if-holds (Extends before) (not (is_in_scope urls scope url)) (λ _. f)
        (λ s.
          if-holds (Extends before) (has e.visited_paths (path_key urls url)) (λ _. f)
            (λ n.
              if-holds (Extends before) (is_barred urls config scope disallow_paths url) (λ _. f)
                (λ b.
                  if-holds (Extends before) (leb (depth + 1) config.depth)
                    (λ d.
                      enqueue-Extends before url (depth + 1) e f n
                        (inr (omega arith, leb→le (depth + 1) config.depth d, ground arith, b)))
                    (λ _. f))))

  pub collect-Extends :
      (before : List QueueEntry) (depth : ℕ) (links seen : List String) (e : CrawlEngine)
      → Extends before e
      → Extends before (collect urls config scope disallow_paths depth links seen e)
  unfolding collect
  collect-Extends before depth [] seen e f = f
  collect-Extends before depth (url ∷ links) seen e f =
      if-holds (Extends before) (has seen url) (λ _. collect-Extends before depth links seen e f)
        (λ _.
          collect-Extends before depth links (url ∷ seen) _ (consider-Extends before depth url e f))

  has_each : (s : List String) → All (λ x. has s x ≡ true) s
  has_each [] = tt
  has_each (x ∷ s) = (ground (arith, ==_refl x), All-map (λ y h. has-cons s x y h) s (has_each s))

  add_seeds-Extends :
      (seeds : List String) (e : CrawlEngine)
      → Extends [] e
      → All (λ s. has config.seeds s ≡ true) seeds
      → Distinct (path_key urls) seeds
      → All (λ s. has e.visited_paths (path_key urls s) ≡ false) seeds
      → Extends [] (add_seeds urls seeds e)
  unfolding add_seeds
  add_seeds-Extends [] e f m d n = f
  add_seeds-Extends (seed ∷ seeds) e f m d n =
      add_seeds-Extends seeds _
        (IsFrontier-snoc e.visited_paths e.queue (record { url = seed; depth = 0 }) f n.0
          (inl (refl, m.0)))
        m.1 d.1 (news seeds d.0 n.1)
    where
      news :
          (ss : List String)
          → All (λ s. path_key urls s ≢ path_key urls seed) ss
          → All (λ s. has e.visited_paths (path_key urls s) ≡ false) ss
          → All (λ s. has (path_key urls seed ∷ e.visited_paths) (path_key urls s) ≡ false) ss
      news [] a b = tt
      news (s ∷ ss) a b =
          (ground (arith, ==_iff (path_key urls seed) (path_key urls s), a.0, b.0), news ss a.1 b.1)

  pub new_engine-Extends :
      Distinct (path_key urls) config.seeds → Extends [] (new_engine urls config)
  unfolding new_engine
  new_engine-Extends d =
      add_seeds-Extends config.seeds _ (tt, tt, tt) (has_each config.seeds) d
        (none_yet config.seeds)
    where
      none_yet : (ss : List String) → All (λ s. has [] (path_key urls s) ≡ false) ss
      none_yet [] = tt
      none_yet (s ∷ ss) = (refl, none_yet ss)
