-- ===== src/Crawl/Run.antt =====
-- `CrawlEngine.run`: the loop as steps, in any order in which the tasks of a batch may finish. A run
-- takes a batch off the queue, starts its fetches (`_fetch_one`), which land one by one, collects the
-- links of each page that landed, and takes the next batch when all are done. `cancel` may come
-- at any time. `log` is the calls of `fetch`, in order. The permits of the semaphore are as many as
-- a batch has entries at most, so no fetch waits for one.
use pwnproxy.Prelude.{
  ◌+◌, String, Bool, true, false, not, ◌&&◌, ◌||◌, Option, none, some, List, [], ◌∷◌, ◌++◌, take,
  drop, leb, ltb, if◌then◌else◌, ◌≡◌, ◌⊎◌,
}
use pwnproxy.Session.Scope.{Urls, ScopeConfig}
use pwnproxy.Crawl.{CrawlConfig, QueueEntry, CrawlEngine, new_engine, collect}

pub record Run : Type 0 where
  pub engine : CrawlEngine
  pub batch : List QueueEntry
  pub flying : List QueueEntry
  pub landed : List (QueueEntry × List String)
  pub log : List QueueEntry
  pub ended : Bool

unfoldable pub new_run : Urls → CrawlConfig → Run
new_run urls config = record {
  engine = new_engine urls config;
  batch = [];
  flying = [];
  landed = [];
  log = [];
  ended = false;
}

-- `cancel`
unfoldable pub cancel : Run → Run
cancel t = record t { engine = record t.engine { cancelled = true } }

abbrev pub IsIdle : Run → Type 0
IsIdle t = (t.batch ≡ []) × (t.flying ≡ []) × (t.landed ≡ [])

module _ (urls : Urls) (config : CrawlConfig) (scope : ScopeConfig)
    (disallow_paths : List String) where
  -- the test of the loop
  unfoldable pub goes_on : CrawlEngine → Bool
  goes_on e = not e.cancelled && ltb e.stats.fetched config.max_urls

  unfoldable pub next_batch : CrawlEngine → List QueueEntry
  next_batch e = take config.concurrency e.queue

  unfoldable pub take_batch : Run → Run
  take_batch t = record t {
    engine = record t.engine { queue = drop config.concurrency t.engine.queue };
    batch = next_batch t.engine;
  }

  -- the head of `_fetch_one`, for the entry at the head of the batch
  unfoldable pub start : QueueEntry → List QueueEntry → Run → Run
  start entry rest t =
      if t.engine.cancelled || leb config.max_urls t.engine.stats.fetched
      then record t { batch = rest }
      else record t { batch = rest; flying = t.flying ++ entry ∷ []; log = t.log ++ entry ∷ [] }

  -- its tail: the fetch failed, or answered a page with these links
  unfoldable pub land : QueueEntry → List QueueEntry → Option (List String) → Run → Run
  land entry others none t = record t {
    flying = others;
    engine = record t.engine {
      stats = record t.engine.stats { errors = t.engine.stats.errors + 1 };
    };
  }
  land entry others (some links) t = record t {
    flying = others;
    landed = t.landed ++ (entry, links) ∷ [];
    engine = record t.engine {
      stats = record t.engine.stats { fetched = t.engine.stats.fetched + 1 };
    };
  }

  unfoldable pub process : QueueEntry → List String → List (QueueEntry × List String) → Run → Run
  process entry links rest t = record t {
    landed = rest;
    engine = collect urls config scope disallow_paths entry.depth links [] t.engine;
  }

  -- after the loop
  unfoldable pub finish : Run → Run
  finish t = record t {
    engine = record t.engine {
      stats = record t.engine.stats {
        maxed = if leb config.max_urls t.engine.stats.fetched then true else t.engine.stats.maxed;
      };
    };
    ended = true;
  }

  -- the loop stops: its test fails, or there is no batch
  abbrev pub Stops : CrawlEngine → Type 0
  Stops e = (goes_on e ≡ false) ⊎ (next_batch e ≡ [])

  -- what the run does
  pub data Work : Run → Run → Type 0 where
    taken :
        (t : Run)
        → t.ended ≡ false
        → IsIdle t
        → goes_on t.engine ≡ true
        → (entry : QueueEntry) (rest : List QueueEntry) → next_batch t.engine ≡ entry ∷ rest
        → Work t (take_batch t)
    started :
        (t : Run) (entry : QueueEntry) (rest : List QueueEntry)
        → t.batch ≡ entry ∷ rest
        → Work t (start entry rest t)
    arrived :
        (t : Run) (before : List QueueEntry) (entry : QueueEntry) (after : List QueueEntry)
        (answer : Option (List String))
        → t.flying ≡ before ++ entry ∷ after
        → Work t (land entry (before ++ after) answer t)
    processed :
        (t : Run) (entry : QueueEntry) (links : List String)
        (rest : List (QueueEntry × List String))
        → t.landed ≡ (entry, links) ∷ rest
        → Work t (process entry links rest t)
    finished : (t : Run) → t.ended ≡ false → IsIdle t → Stops t.engine → Work t (finish t)

  -- the run, and who cancels it once
  pub data Step : Run → Run → Type 0 where
    works : {t u : Run} → Work t u → Step t u
    cancels : (t : Run) → t.engine.cancelled ≡ false → Step t (cancel t)

  pub data Reach : Run → Type 0 where
    fresh : Reach (new_run urls config)
    next : {t u : Run} → Reach t → Step t u → Reach u
