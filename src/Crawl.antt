-- ===== src/Crawl.antt =====
-- pwnproxy/services/crawler/engine.py, CrawlEngine, and `is_disallowed` of fetcher.py. The engine's
-- sets are lists. `config` and `scope`, which the engine reads and never assigns, and the Disallow
-- prefixes of the robots.txt that a run fetches before its loop, are arguments; the pages' links are
-- what the extractors, not modelled here, answer.
pub mod Candidates
pub mod Run
pub mod Frontier
pub mod Invariant
pub mod Bounds
pub mod Ends
pub mod Progress
use pwnproxy.Prelude.{
  ℕ, ◌+◌, String, Bool, true, false, not, ◌&&◌, Option, none, some, List, [], ◌∷◌, ◌++◌, any_of,
  leb, ◌==◌, string_eq, if◌then◌else◌,
}
use text.Mathlib.Text.{starts_with}
use pwnproxy.Session.Scope.{Urls, ScopeConfig, is_in_scope}

-- the fields that the engine reads; the rate is the fetcher's
pub record CrawlConfig : Type 0 where
  pub seeds : List String
  pub depth : ℕ
  pub concurrency : ℕ
  pub max_urls : ℕ
  pub respect_robots : Bool

pub record CrawlStats : Type 0 where
  pub fetched : ℕ
  pub queued : ℕ
  pub discovered : ℕ
  pub errors : ℕ
  pub maxed : Bool

pub record QueueEntry : Type 0 where
  pub url : String
  pub depth : ℕ

pub record CrawlEngine : Type 0 where
  pub visited : List String
  pub visited_paths : List String
  pub queue : List QueueEntry
  pub stats : CrawlStats
  pub cancelled : Bool

abbrev pub new_stats : CrawlStats
new_stats = record { fetched = 0; queued = 0; discovered = 0; errors = 0; maxed = false }

-- `x in s`
abbrev pub has : List String → String → Bool
has s x = any_of (λ y. y == x) s

abbrev pub has_rules : List String → Bool
has_rules [] = false
has_rules (_ ∷ _) = true

module _ (urls : Urls) where
  -- `parsed.path or "/"`
  unfoldable pub path_key : String → String
  path_key url = if urls.path url == "" then "/" else urls.path url

  unfoldable pub is_disallowed : String → List String → Bool
  is_disallowed url disallow_paths =
      any_of (λ prefix. starts_with (path_key url) prefix) disallow_paths

  -- the loop of `__post_init__`
  unfoldable pub add_seeds : List String → CrawlEngine → CrawlEngine
  add_seeds [] e = e
  add_seeds (seed ∷ seeds) e = add_seeds seeds (record e {
    visited = seed ∷ e.visited;
    visited_paths = path_key seed ∷ e.visited_paths;
    queue = e.queue ++ record { url = seed; depth = 0 } ∷ [];
  })

  unfoldable pub new_engine : CrawlConfig → CrawlEngine
  new_engine config = add_seeds config.seeds (record {
    visited = [];
    visited_paths = [];
    queue = [];
    stats = new_stats;
    cancelled = false;
  })

  module _ (config : CrawlConfig) (scope : ScopeConfig) (disallow_paths : List String) where
    unfoldable pub is_barred : String → Bool
    is_barred url =
        config.respect_robots && (has_rules disallow_paths && is_disallowed url disallow_paths)

    -- into the sets and the queue
    unfoldable pub enqueue : String → ℕ → CrawlEngine → CrawlEngine
    enqueue url depth e = record e {
      visited = url ∷ e.visited;
      visited_paths = path_key url ∷ e.visited_paths;
      queue = e.queue ++ record { url = url; depth = depth } ∷ [];
    }

    unfoldable pub count_queued : CrawlEngine → CrawlEngine
    count_queued e = record e { stats = record e.stats { queued = e.stats.queued + 1 } }

    unfoldable pub count_discovered : CrawlEngine → CrawlEngine
    count_discovered e = record e { stats = record e.stats { discovered = e.stats.discovered + 1 } }

    unfoldable pub queue_candidate : String → ℕ → CrawlEngine → CrawlEngine × Bool
    queue_candidate url current_depth e =
        if has e.visited url
        then (e, false)
        else if not (is_in_scope urls scope url)
        then (e, false)
        else if has e.visited_paths (path_key url)
        then (e, false)
        else if is_barred url
        then (e, false)
        else if not (leb (current_depth + 1) config.depth)
        then (e, false)
        else (count_queued (enqueue url (current_depth + 1) e), true)

    -- the body of the loop over a page's candidates, past the test of `seen_in_page`
    unfoldable pub consider : ℕ → String → CrawlEngine → CrawlEngine
    consider depth url e =
        if not (is_in_scope urls scope url)
        then e
        else if has e.visited_paths (path_key url)
        then e
        else if is_barred url
        then e
        else if leb (depth + 1) config.depth
        then count_discovered (count_queued (enqueue url (depth + 1) e))
        else e

    -- the loop, with `seen_in_page`
    unfoldable pub collect : ℕ → List String → List String → CrawlEngine → CrawlEngine
    collect depth [] seen e = e
    collect depth (url ∷ links) seen e =
        let again = collect depth links seen e in
        let on = collect depth links (url ∷ seen) (consider depth url e) in
        if has seen url then again else on
