-- ===== src/Jobs/Urls.antt =====
-- `DiscoveredURLStorage` of pwnproxy/services/crawler/storage.py, over a table of rows in the order of
-- their ids. `others` is what other writers do between the query and the commit of a save, and
-- `refused` tells whether the database refuses the commit for a reason of its own.
pub mod Kept
use pwnproxy.Prelude.{
  ℕ, ◌+◌, String, Bool, true, false, ◌||◌, Option, none, some, List, [], ◌∷◌, ◌++◌, length, take,
  drop, keep_if, any_of, ◌==◌, string_eq, if◌then◌else◌,
}
use mathlib.Core.List.{reverse}

pub record UrlRow : Type 0 where
  pub id : ℕ
  pub url : String
  pub base_url : String
  pub method : String
  pub source : String
  pub timestamp : ℕ

pub record Table : Type 0 where
  pub rows : List UrlRow
  pub next_id : ℕ

-- the arguments of `save`, and the time
pub record Discovery : Type 0 where
  pub url : String
  pub source : String
  pub method : String
  pub base_url : String
  pub now : ℕ

abbrev pub row_of : ℕ → Discovery → UrlRow
row_of id d = record {
  id = id;
  url = d.url;
  base_url = d.base_url;
  method = if d.method == "" then "GET" else d.method;
  source = d.source;
  timestamp = d.now;
}

abbrev pub present : String → List UrlRow → Bool
present url rows = any_of (λ r. r.url == url) rows

abbrev pub insert : Discovery → Table → Table
insert d t = record { rows = t.rows ++ row_of t.next_id d ∷ []; next_id = t.next_id + 1 }

-- the commit, with the unique index on `url`
unfoldable pub commit : Bool → Discovery → Table → Table × Option ℕ
commit refused d t =
    if refused || present d.url t.rows then (t, none) else (insert d t, some t.next_id)

unfoldable pub save : Bool → (Table → Table) → Discovery → Table → Table × Option ℕ
save refused others d t = if present d.url t.rows then (t, none) else commit refused d (others t)

abbrev pub of_source : Option String → UrlRow → Bool
of_source none r = true
of_source (some source) r = if source == "" then true else r.source == source

unfoldable pub list : Option String → ℕ → ℕ → Table → List UrlRow
list source limit offset t = take limit (drop offset (reverse (keep_if (of_source source) t.rows)))

unfoldable pub count : Option String → Table → ℕ
count source t = length (keep_if (of_source source) t.rows)
