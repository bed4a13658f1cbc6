-- ===== src/Crawl/Invariant.antt =====
-- What holds in every state of a run, in whatever order its fetches finish: what is fetched.
use pwnproxy.Prelude.{
  ℕ, zero, suc, String, ◌||◌, Option, none, some, List, [], ◌∷◌, ◌++◌, append-nil, append_assoc,
  take, drop, leb, ◌≡◌, refl, sym, ap, ◌∙◌, subst, All, if-holds,
}
use pwnproxy.Prelude.Distinct.{Distinct, Distinct-left, All-split}
use pwnproxy.Session.Scope.{Urls, ScopeConfig}
use pwnproxy.Crawl.{CrawlConfig, QueueEntry, path_key}
use pwnproxy.Crawl.Candidates.{IsKeyed, new_engine-IsKeyed, collect-IsKeyed}
use pwnproxy.Crawl.Frontier.{
  entry_key, IsFit, IsFrontier, IsFrontier-omit, Extends, collect-Extends, new_engine-Extends,
}
use pwnproxy.Crawl.Run.{
  Run, new_run, cancel, take_batch, start, land, process, finish, Work, taken, started, arrived,
  processed, finished, next_batch, works, cancels, Reach, fresh, next,
}

take-drop : {A : Type 0} (n : ℕ) (xs : List A) → take n xs ++ drop n xs ≡ xs
take-drop zero xs = refl
take-drop (suc n) [] = refl
take-drop (suc n) (x ∷ xs) = ap (λ ys. x ∷ ys) (take-drop n xs)

module _ (urls : Urls) (config : CrawlConfig) (scope : ScopeConfig)
    (disallow_paths : List String) where
  -- no two entries that were fetched or are to be have the same path, and all are fit
  abbrev pub IsOrderly : Run → Type 0
  IsOrderly t =
      IsKeyed urls t.engine × Extends urls config scope disallow_paths (t.log ++ t.batch) t.engine

  new_run-IsOrderly : Distinct (path_key urls) config.seeds → IsOrderly (new_run urls config)
  unfolding new_run
  new_run-IsOrderly d =
      (new_engine-IsKeyed urls config, new_engine-Extends urls config scope disallow_paths d)

  take_batch-IsOrderly :
      (t : Run)
      → t.batch ≡ []
      → IsOrderly t
      → IsOrderly (take_batch urls config scope disallow_paths t)
  unfolding take_batch next_batch
  take_batch-IsOrderly t b i = (
    i.0,
    subst (IsFrontier urls config scope disallow_paths t.engine.visited_paths)
        (ap (λ bs. (t.log ++ bs) ++ t.engine.queue) b
          ∙ ap (λ l. l ++ t.engine.queue) (append-nil t.log)
          ∙ ap (λ q. t.log ++ q) (sym (take-drop config.concurrency t.engine.queue))
          ∙ sym (append_assoc t.log (take config.concurrency t.engine.queue) _))
        i.1,
  )

  start-IsOrderly :
      (t : Run) (entry : QueueEntry) (rest : List QueueEntry)
      → t.batch ≡ entry ∷ rest
      → IsOrderly t
      → IsOrderly (start urls config scope disallow_paths entry rest t)
  unfolding start
  start-IsOrderly t entry rest b i =
      let frontier = IsFrontier urls config scope disallow_paths t.engine.visited_paths in
      let now : frontier ((t.log ++ entry ∷ rest) ++ t.engine.queue) =
        subst (λ bs. frontier ((t.log ++ bs) ++ t.engine.queue)) b i.1 in
      if-holds IsOrderly (t.engine.cancelled || leb config.max_urls t.engine.stats.fetched)
        (λ _. (
          i.0,
          subst frontier (sym (append_assoc t.log rest t.engine.queue)) (
              IsFrontier-omit urls config scope disallow_paths t.engine.visited_paths t.log entry
                (rest ++ t.engine.queue)
                (subst frontier (append_assoc t.log (entry ∷ rest) t.engine.queue) now)),
        ))
        (λ _. (
          i.0,
          subst frontier
              (ap (λ l. l ++ t.engine.queue) (sym (append_assoc t.log (entry ∷ []) rest))) now,
        ))

  land-IsOrderly :
      (t : Run) (entry : QueueEntry) (others : List QueueEntry) (answer : Option (List String))
      → IsOrderly t
      → IsOrderly (land urls config scope disallow_paths entry others answer t)
  unfolding land
  land-IsOrderly t entry others none i = i
  land-IsOrderly t entry others (some links) i = i

  Work-IsOrderly :
      {t u : Run} → Work urls config scope disallow_paths t u → IsOrderly t → IsOrderly u
  unfolding process finish
  Work-IsOrderly (taken t e idle g entry rest n) i = take_batch-IsOrderly t idle.0 i
  Work-IsOrderly (started t entry rest b) i = start-IsOrderly t entry rest b i
  Work-IsOrderly (arrived t before entry after answer f) i = land-IsOrderly t entry _ answer i
  Work-IsOrderly (processed t entry links rest l) i = (
    collect-IsKeyed urls config scope disallow_paths entry.depth links [] t.engine i.0,
    collect-Extends urls config scope disallow_paths (t.log ++ t.batch) entry.depth links []
        t.engine i.1,
  )
  Work-IsOrderly (finished t e idle s) i = i

  Reach-IsOrderly :
      {t : Run}
      → Distinct (path_key urls) config.seeds
      → Reach urls config scope disallow_paths t
      → IsOrderly t
  unfolding cancel
  Reach-IsOrderly d fresh = new_run-IsOrderly d
  Reach-IsOrderly d (next r (works w)) = Work-IsOrderly w (Reach-IsOrderly d r)
  Reach-IsOrderly d (next r (cancels t n)) = Reach-IsOrderly d r

  pub Reach-fetches :
      {t : Run}
      → Distinct (path_key urls) config.seeds
      → Reach urls config scope disallow_paths t
      → Distinct (entry_key urls config scope disallow_paths) t.log
        × All (IsFit urls config scope disallow_paths) t.log
  Reach-fetches {t} d r =
      let f = (Reach-IsOrderly d r).1 in
      let key = entry_key urls config scope disallow_paths in
      let fit = IsFit urls config scope disallow_paths in
      (
        Distinct-left key t.log t.batch (Distinct-left key (t.log ++ t.batch) t.engine.queue f.1),
        (All-split fit t.log t.batch (All-split fit (t.log ++ t.batch) t.engine.queue f.2).0).0,
      )
