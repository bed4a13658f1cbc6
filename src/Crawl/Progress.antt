-- ===== src/Crawl/Progress.antt =====
-- Left to itself, a run of the crawl comes to its end, with nothing under way.
use mathlib.Core.WellFounded.{Acc}
use pwnproxy.Prelude.{
  arith, String, true, false, ◌||◌, none, some, List, [], ◌∷◌, ◌++◌, leb, ◌≡◌, refl, sym, ◌∙◌, ◌⊎◌,
  inl, inr, if-holds, Bool-cases,
}
use pwnproxy.Session.Scope.{Urls, ScopeConfig}
use pwnproxy.Crawl.{CrawlConfig}
use pwnproxy.Crawl.Run.{
  Run, IsIdle, new_run, cancel, goes_on, next_batch, take_batch, start, land, process, finish,
  Stops, Work, taken, started, arrived, processed, finished, Step, works, cancels, Reach, fresh,
  next,
}
use pwnproxy.Crawl.Ends.{After, Reach-terminates}

List-cases : {A : Type 0} (xs : List A) → (xs ≡ []) ⊎ ((x : A) × (ys : List A) × (xs ≡ x ∷ ys))
List-cases [] = inl refl
List-cases (x ∷ xs) = inr (x, xs, refl)

module _ (urls : Urls) (config : CrawlConfig) (scope : ScopeConfig)
    (disallow_paths : List String) where
  abbrev pub IsDone : Run → Type 0
  IsDone t = (t.ended ≡ true) × IsIdle t × Stops urls config scope disallow_paths t.engine

  -- an end is a proper one
  abbrev IsHonest : Run → Type 0
  IsHonest t = (t.ended ≡ false) ⊎ IsIdle t × Stops urls config scope disallow_paths t.engine

  none_left : {A : Type 0} (before : List A) (x : A) (after : List A) → [] ≡ before ++ x ∷ after → ⊥
  none_left [] x after e = ground arith
  none_left (y ∷ before) x after e = ground arith

  Work-IsHonest : {t u : Run} → Work urls config scope disallow_paths t u → IsHonest t → IsHonest u
  unfolding take_batch start land process finish goes_on next_batch
  Work-IsHonest (taken t e idle g entry rest n) h = inl e
  Work-IsHonest (started t entry rest b) (inl e) =
      if-holds IsHonest (t.engine.cancelled || leb config.max_urls t.engine.stats.fetched)
        (λ _. inl e) (λ _. inl e)
  Work-IsHonest (started t entry rest b) (inr d) = absurd (ground (arith, d.0.0, b))
  Work-IsHonest (arrived t before entry after none f) (inl e) = inl e
  Work-IsHonest (arrived t before entry after (some links) f) (inl e) = inl e
  Work-IsHonest (arrived t before entry after answer f) (inr d) =
      absurd (none_left before entry after (sym d.0.1 ∙ f))
  Work-IsHonest (processed t entry links rest l) (inl e) = inl e
  Work-IsHonest (processed t entry links rest l) (inr d) = absurd (ground (arith, d.0.2, l))
  Work-IsHonest (finished t e idle s) h = inr (idle, s)

  Reach-IsHonest : {t : Run} → Reach urls config scope disallow_paths t → IsHonest t
  unfolding new_run cancel goes_on
  Reach-IsHonest fresh = inl refl
  Reach-IsHonest (next r (works w)) = Work-IsHonest w (Reach-IsHonest r)
  Reach-IsHonest (next r (cancels t n)) = elim (Reach-IsHonest r) [
    | inl e ↦ inl e
    | inr d ↦ inr (d.0, inl refl)
  ]

  -- a run that has not ended can go on
  abbrev pub CanWork : Run → Type 0
  CanWork t = (u : Run) × Work urls config scope disallow_paths t u

  idle-CanWork : (t : Run) → t.ended ≡ false → IsIdle t → CanWork t
  idle-CanWork t e idle = elim (Bool-cases (goes_on urls config scope disallow_paths t.engine)) [
    | inr stop ↦ (_, finished t e idle (inl stop))
    | inl on ↦ elim (List-cases (next_batch urls config scope disallow_paths t.engine)) [
      | inl empty ↦ (_, finished t e idle (inr empty))
      | inr (x, xs, b) ↦ (_, taken t e idle on x xs b)
    ]
  ]

  fetches-CanWork : (t : Run) → t.ended ≡ false → t.batch ≡ [] → t.landed ≡ [] → CanWork t
  fetches-CanWork t e b l = elim (List-cases t.flying) [
    | inl f ↦ idle-CanWork t e (b, f, l)
    | inr (x, xs, f) ↦ (_, arrived t [] x xs none f)
  ]

  CanWork_lem : (t : Run) → t.ended ≡ false → CanWork t
  CanWork_lem t e = elim (List-cases t.landed) [
    | inr ((x, links), rest, l) ↦ (_, processed t x links rest l)
    | inl l ↦ elim (List-cases t.batch) [
      | inr (x, rest, b) ↦ (_, started t x rest b)
      | inl b ↦ fetches-CanWork t e b l
    ]
  ]

  -- whatever is done, the run comes to its end: it is there, or it can go on, and so can what each
  -- step leads to
  pub data Completes : Run → Type 0 where
    done : {t : Run} → IsDone t → Completes t
    on :
        {t : Run}
        → CanWork t
        → ((u : Run) → Step urls config scope disallow_paths t u → Completes u)
        → Completes t

  completes_from :
      {t : Run}
      → Acc (After urls config scope disallow_paths) t
      → Reach urls config scope disallow_paths t
      → Completes t
  completes_from (Acc.intro t further) r = elim (Bool-cases t.ended) [
    | inl e ↦ elim (Reach-IsHonest r) [
      | inl n ↦ absurd (ground (arith, e, n))
      | inr d ↦ done (e, d.0, d.1)
    ]
    | inr n ↦ on (CanWork_lem t n) (λ u st. completes_from (further u st) (next r st))
  ]

  -- Every run comes to its end, whatever the fetches answer, in whatever order they finish and
  -- whenever it is cancelled: from each state there is a step of the run until it has ended, and
  -- every sequence of steps gets there. At the end no fetch is going on or about to start, the
  -- links of every fetched page are collected, and the run was cancelled, has fetched `max_urls`
  -- pages or has no entry to take off the queue.
  pub Reach-Completes : {t : Run} → Reach urls config scope disallow_paths t → Completes t
  Reach-Completes {t} r = completes_from (Reach-terminates urls config scope disallow_paths r) r
