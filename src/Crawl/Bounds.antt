-- ===== src/Crawl/Bounds.antt =====
-- The counters of a run.
use pwnproxy.Prelude.{
  arith, ℕ, suc, ◌+◌, ◌-◌, ◌≤◌, ◌<◌, String, true, ◌||◌, Option, none, some, List, [], ◌∷◌, ◌++◌,
  length, length-append, length-take, leb, ◌≡◌, refl, ap, ◌∙◌, if-holds,
}
use pwnproxy.Session.Scope.{Urls, ScopeConfig}
use pwnproxy.Crawl.{
  CrawlConfig, QueueEntry, CrawlEngine, has, enqueue, count_queued, count_discovered, consider,
  collect, add_seeds, new_engine,
}
use pwnproxy.Crawl.Run.{
  Run, new_run, cancel, goes_on, next_batch, take_batch, start, land, process, finish, Work, taken,
  started, arrived, processed, finished, works, cancels, Reach, fresh, next,
}

-- what the loop over a page's links leaves alone
abbrev pub Same : CrawlEngine → CrawlEngine → Type 0
Same e f =
    (f.stats.fetched ≡ e.stats.fetched)
    × (f.stats.errors ≡ e.stats.errors)
    × (f.cancelled ≡ e.cancelled)

module _ (urls : Urls) (config : CrawlConfig) (scope : ScopeConfig)
    (disallow_paths : List String) where
  consider-Same :
      (depth : ℕ) (url : String) (e : CrawlEngine)
      → Same e (consider urls config scope disallow_paths depth url e)
  unfolding consider count_queued count_discovered enqueue
  consider-Same depth url e = ground arith

  pub collect-Same :
      (depth : ℕ) (links seen : List String) (e : CrawlEngine)
      → Same e (collect urls config scope disallow_paths depth links seen e)
  unfolding collect
  collect-Same depth [] seen e = (refl, refl, refl)
  collect-Same depth (url ∷ links) seen e =
      let first = consider-Same depth url e in
      let rest =
        collect-Same depth links (url ∷ seen)
          (consider urls config scope disallow_paths depth url e) in
      if-holds (Same e) (has seen url) (λ _. collect-Same depth links seen e)
        (λ _. (rest.0 ∙ first.0, rest.1 ∙ first.1, rest.2 ∙ first.2))

  add_seeds-stats :
      (seeds : List String) (e : CrawlEngine) → (add_seeds urls seeds e).stats ≡ e.stats
  unfolding add_seeds
  add_seeds-stats [] e = refl
  add_seeds-stats (seed ∷ seeds) e = add_seeds-stats seeds _

  -- the last page counted can be one of a whole batch
  abbrev pub page_bound : ℕ
  page_bound = (config.max_urls - 1) + config.concurrency

  abbrev pub IsCounted : Run → Type 0
  IsCounted t =
      (t.engine.stats.fetched + t.engine.stats.errors + length t.flying ≡ length t.log)
      × (t.engine.stats.fetched + length t.flying + length t.batch ≤ page_bound)
      × (length t.flying + length t.batch ≤ config.concurrency)

  new_run-IsCounted : IsCounted (new_run urls config)
  unfolding new_run new_engine
  new_run-IsCounted =
      let e = add_seeds-stats config.seeds _ in
      let f : (new_engine urls config).stats.fetched ≡ 0 = ap (λ s. s.fetched) e in
      let g : (new_engine urls config).stats.errors ≡ 0 = ap (λ s. s.errors) e in
      omega (arith, f, g)

  start-IsCounted :
      (t : Run) (entry : QueueEntry) (rest : List QueueEntry)
      → t.batch ≡ entry ∷ rest
      → IsCounted t
      → IsCounted (start urls config scope disallow_paths entry rest t)
  unfolding start
  start-IsCounted t entry rest b i =
      let n : length t.batch ≡ suc (length rest) = ap length b in
      if-holds IsCounted (t.engine.cancelled || leb config.max_urls t.engine.stats.fetched)
        (λ _. omega (arith, i.0, i.1, i.2, n))
        (λ _. omega (
          arith,
          i.0,
          i.1,
          i.2,
          n,
          length-append t.flying (entry ∷ []),
          length-append t.log (entry ∷ []),
        ))

  land-IsCounted :
      (t : Run) (before : List QueueEntry) (entry : QueueEntry) (after : List QueueEntry)
      (answer : Option (List String))
      → t.flying ≡ before ++ entry ∷ after
      → IsCounted t
      → IsCounted (land urls config scope disallow_paths entry (before ++ after) answer t)
  unfolding land
  land-IsCounted t before entry after none f i = omega (
    arith,
    i.0,
    i.1,
    i.2,
    ap length f,
    length-append before (entry ∷ after),
    length-append before after,
  )
  land-IsCounted t before entry after (some links) f i = omega (
    arith,
    i.0,
    i.1,
    i.2,
    ap length f,
    length-append before (entry ∷ after),
    length-append before after,
  )

  take_batch-IsCounted :
      (t : Run)
      → t.flying ≡ []
      → goes_on urls config scope disallow_paths t.engine ≡ true
      → IsCounted t
      → IsCounted (take_batch urls config scope disallow_paths t)
  unfolding take_batch next_batch goes_on
  take_batch-IsCounted t f g i =
      let below : t.engine.stats.fetched < config.max_urls = ground arith in
      omega (arith, below, i.0, ap length f, length-take config.concurrency t.engine.queue)

  Work-IsCounted :
      {t u : Run} → Work urls config scope disallow_paths t u → IsCounted t → IsCounted u
  unfolding process finish
  Work-IsCounted (taken t e idle g entry rest n) i = take_batch-IsCounted t idle.1 g i
  Work-IsCounted (started t entry rest b) i = start-IsCounted t entry rest b i
  Work-IsCounted (arrived t before entry after answer f) i =
      land-IsCounted t before entry after answer f i
  Work-IsCounted (processed t entry links rest l) i =
      let s = collect-Same entry.depth links [] t.engine in omega (arith, i.0, i.1, i.2, s.0, s.1)
  Work-IsCounted (finished t e idle s) i = i

  -- At every moment of a run, every call of `fetch` is counted as fetched or as an error or is
  -- still going on, at most `concurrency` are going on or about to start, and the pages fetched
  -- are at most `max_urls - 1 + concurrency` (with 0 - 1 as 0): the test of the limit when a fetch
  -- starts does not see the fetches that are going on.
  pub Reach-IsCounted : {t : Run} → Reach urls config scope disallow_paths t → IsCounted t
  unfolding cancel
  Reach-IsCounted fresh = new_run-IsCounted
  Reach-IsCounted (next r (works w)) = Work-IsCounted w (Reach-IsCounted r)
  Reach-IsCounted (next r (cancels t n)) = Reach-IsCounted r
