-- ===== src/Crawl/Ends.antt =====
-- A run of the crawl ends: no sequence of steps goes on for ever, and until its end there is one.
use mathlib.Core.WellFounded.{Acc}
use pwnproxy.Prelude.{
  arith, ℕ, zero, suc, ◌+◌, ◌-◌, ◌*◌, ◌≤◌, ◌<◌, String, Bool, true, false, ◌||◌, Option, none, some,
  List, [], ◌∷◌, ◌++◌, length, length-append, length-take, length-drop, leb, ◌≡◌, ap, ◌⊎◌, inl, inr,
  if-holds,
}
use pwnproxy.Session.Scope.{Urls, ScopeConfig}
use pwnproxy.Crawl.{CrawlConfig, QueueEntry}
use pwnproxy.Crawl.Run.{
  Run, cancel, next_batch, take_batch, start, land, process, finish, taken, started, arrived,
  processed, finished, Step, works, cancels, Reach, next,
}
use pwnproxy.Crawl.Bounds.{page_bound, IsCounted, Reach-IsCounted, collect-Same}

-- one for what is still to come
abbrev to_come : Bool → ℕ
to_come true = 0
to_come false = 1

abbrev potential : Run → ℕ
potential t =
    3 * length t.engine.queue
    + 2 * length t.batch
    + length t.flying
    + to_come t.engine.cancelled
    + to_come t.ended

module _ (urls : Urls) (config : CrawlConfig) (scope : ScopeConfig)
    (disallow_paths : List String) where
  -- the pages that may still be fetched
  abbrev room : Run → ℕ
  room t = page_bound urls config scope disallow_paths - t.engine.stats.fetched

  -- fewer pages to fetch, fewer pages to read, or less to do
  abbrev Descends : Run → Run → Type 0
  Descends t u =
      (room u < room t)
      ⊎ (room u ≤ room t) × (length u.landed < length t.landed)
      ⊎ (room u ≤ room t) × (length u.landed ≤ length t.landed) × (potential u < potential t)

  start-Descends :
      (t : Run) (entry : QueueEntry) (rest : List QueueEntry)
      → t.batch ≡ entry ∷ rest
      → Descends t (start urls config scope disallow_paths entry rest t)
  unfolding start
  start-Descends t entry rest b =
      let n : length t.batch ≡ suc (length rest) = ap length b in
      if-holds (Descends t) (t.engine.cancelled || leb config.max_urls t.engine.stats.fetched)
        (λ _. inr (inr (omega arith, omega arith, omega (arith, n))))
        (λ _.
          inr
            (inr (omega arith, omega arith, omega (arith, n, length-append t.flying (entry ∷ [])))))

  land-Descends :
      (t : Run) (before : List QueueEntry) (entry : QueueEntry) (after : List QueueEntry)
      (answer : Option (List String))
      → t.flying ≡ before ++ entry ∷ after
      → IsCounted urls config scope disallow_paths t
      → Descends t (land urls config scope disallow_paths entry (before ++ after) answer t)
  unfolding land
  land-Descends t before entry after none f i = inr (
      inr (
        omega arith,
        omega arith,
        omega
            (arith, ap length f, length-append before (entry ∷ after), length-append before after),
      ))
  land-Descends t before entry after (some links) f i =
      inl (omega (arith, i.1, ap length f, length-append before (entry ∷ after)))

  take_batch-Descends :
      (t : Run) (entry : QueueEntry) (rest : List QueueEntry)
      → t.batch ≡ []
      → next_batch urls config scope disallow_paths t.engine ≡ entry ∷ rest
      → Descends t (take_batch urls config scope disallow_paths t)
  unfolding take_batch next_batch
  take_batch-Descends t entry rest b n = inr (
      inr (
        omega arith,
        omega arith,
        omega (
          arith,
          ap length b,
          ap length n,
          length-take config.concurrency t.engine.queue,
          length-drop config.concurrency t.engine.queue,
        ),
      ))

  Step-Descends :
      {t u : Run}
      → Step urls config scope disallow_paths t u
      → IsCounted urls config scope disallow_paths t
      → Descends t u
  unfolding process finish cancel
  Step-Descends (works (taken t e idle g entry rest n)) i =
      take_batch-Descends t entry rest idle.0 n
  Step-Descends (works (started t entry rest b)) i = start-Descends t entry rest b
  Step-Descends (works (arrived t before entry after answer f)) i =
      land-Descends t before entry after answer f i
  Step-Descends (works (processed t entry links rest l)) i =
      let s = collect-Same urls config scope disallow_paths entry.depth links [] t.engine in
      inr (inl (omega (arith, s.0), omega (arith, ap length l)))
  Step-Descends (works (finished t e idle s)) i =
      inr (inr (omega arith, omega arith, omega (arith, ap to_come e)))
  Step-Descends (cancels t n) i = inr (inr (omega arith, omega arith, omega (arith, ap to_come n)))

  -- a step backwards
  abbrev pub After : Run → Run → Type 0
  After u t = Step urls config scope disallow_paths t u

  ends_within :
      (m d w : ℕ) (t : Run)
      → Reach urls config scope disallow_paths t
      → room t < m
      → length t.landed < d
      → potential t < w
      → Acc After t
  ends_within zero d w t r p q s = absurd (omega arith)
  ends_within (suc m) zero w t r p q s = absurd (omega arith)
  ends_within (suc m) (suc d) zero t r p q s = absurd (omega arith)
  ends_within (suc m) (suc d) (suc w) t r p q s = Acc.intro t (λ u st.
      elim (Step-Descends st (Reach-IsCounted urls config scope disallow_paths r)) [
        | inl l ↦
            ends_within m (suc (length u.landed)) (suc (potential u)) u (next r st) (omega arith)
              (omega arith) (omega arith)
        | inr (inl l) ↦
            ends_within (suc m) d (suc (potential u)) u (next r st) (omega arith) (omega arith)
              (omega arith)
        | inr (inr l) ↦
            ends_within (suc m) (suc d) w u (next r st) (omega arith) (omega arith) (omega arith)
      ])

  -- From every state of a run there is no infinite sequence of steps, whatever the fetches answer
  -- and in whatever order they finish, even though a page may lead to new ones.
  pub Reach-terminates : {t : Run} → Reach urls config scope disallow_paths t → Acc After t
  Reach-terminates {t} r =
      ends_within (suc (room t)) (suc (length t.landed)) (suc (potential t)) t r (omega arith)
        (omega arith) (omega arith)
