-- ===== src/Examples/Crawls.antt =====
-- A crawl of two seeds, two at a time, for one page.
use pwnproxy.Prelude.{
  arith, String, true, false, none, some, List, [], ◌∷◌, All, ◌≡◌, refl, string_eq,
}
use pwnproxy.Prelude.Distinct.{Distinct}
use pwnproxy.Session.Scope.{Urls, ScopeConfig, no_data, new_scope}
use pwnproxy.Crawl.{CrawlConfig, QueueEntry, path_key, collect, new_engine, add_seeds}
use pwnproxy.Crawl.Candidates.{new_engine-IsKeyed, offer_all, collect-offers}
use pwnproxy.Crawl.Run.{
  Run, new_run, goes_on, next_batch, take_batch, start, land, Reach, Step, Work,
}
use pwnproxy.Crawl.Frontier.{entry_key, IsFit}
use pwnproxy.Crawl.Invariant.{Reach-fetches}
use pwnproxy.Crawl.Bounds.{IsCounted, Reach-IsCounted}
use pwnproxy.Crawl.Progress.{Completes, Reach-Completes}

-- every URL is its own path, and every pattern matches
abbrev urls : Urls
urls = record { netloc = λ u. ""; hostname = λ u. none; path = λ u. u; fnmatch = λ t p. true }

abbrev config : CrawlConfig
config = record {
  seeds = "/a" ∷ "/b" ∷ [];
  depth = 1;
  concurrency = 2;
  max_urls = 1;
  respect_robots = false;
}

abbrev scope : ScopeConfig
scope = new_scope no_data

abbrev a : QueueEntry
a = record { url = "/a"; depth = 0 }

abbrev b : QueueEntry
b = record { url = "/b"; depth = 0 }

abbrev links : List String
links = "/c" ∷ "/a" ∷ "/c" ∷ []

abbrev begun : Run
begun = new_run urls config

abbrev taken : Run
taken = take_batch urls config scope [] begun

abbrev one : Run
one = start urls config scope [] a (b ∷ []) taken

abbrev two : Run
two = start urls config scope [] b [] one

abbrev landed : Run
landed = land urls config scope [] b (a ∷ []) (some links) two

abbrev full : Run
full = land urls config scope [] a [] (some []) landed

taken-Step : Step urls config scope [] begun taken
unfolding new_run new_engine add_seeds goes_on next_batch
taken-Step = Step.works (Work.taken begun refl (refl, refl, refl) refl a (b ∷ []) refl)

one-Step : Step urls config scope [] taken one
unfolding new_run new_engine add_seeds next_batch take_batch
one-Step = Step.works (Work.started taken a (b ∷ []) refl)

two-Step : Step urls config scope [] one two
unfolding new_run new_engine add_seeds next_batch take_batch start
two-Step = Step.works (Work.started one b [] refl)

landed-Step : Step urls config scope [] two landed
unfolding new_run new_engine add_seeds next_batch take_batch start
landed-Step = Step.works (Work.arrived two (a ∷ []) b [] (some links) refl)

full-Step : Step urls config scope [] landed full
unfolding new_run new_engine add_seeds next_batch take_batch start land
full-Step = Step.works (Work.arrived landed [] a [] (some []) refl)

full-Reach : Reach urls config scope [] full
full-Reach =
    Reach.next
      (Reach.next (Reach.next (Reach.next (Reach.next Reach.fresh taken-Step) one-Step) two-Step)
        landed-Step)
      full-Step

-- two pages, where the configuration says one
full_fetched : full.engine.stats.fetched ≡ 2
unfolding new_run new_engine add_seeds next_batch take_batch start land
full_fetched = refl

seeds-Distinct : Distinct (path_key urls) config.seeds
unfolding path_key
seeds-Distinct = (((λ e. absurd (ground (arith, string_eq.decides "/b" "/a", e))), tt), (tt, tt))

Reach-fetches_example :
    Distinct (entry_key urls config scope []) full.log × All (IsFit urls config scope []) full.log
Reach-fetches_example = Reach-fetches urls config scope [] seeds-Distinct full-Reach

Reach-IsCounted_example : IsCounted urls config scope [] full
Reach-IsCounted_example = Reach-IsCounted urls config scope [] full-Reach

Reach-Completes_example : Completes urls config scope [] full
Reach-Completes_example = Reach-Completes urls config scope [] full-Reach

collect-offers_example :
    collect urls config scope [] 0 links [] (new_engine urls config)
    ≡ offer_all urls config scope [] 0 links (new_engine urls config)
collect-offers_example =
    collect-offers urls config scope [] 0 links (new_engine urls config)
      (new_engine-IsKeyed urls config)
