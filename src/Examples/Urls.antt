-- ===== src/Examples/Urls.antt =====
-- Two writers that save the same url.
use pwnproxy.Prelude.{true, false, none, some, [], ◌≡◌, refl}
use pwnproxy.Jobs.Urls.{Table, Discovery, present, commit, save, list, count}
use pwnproxy.Jobs.Urls.Kept.{IsValid, Keeps, Writes, save-Keeps}

abbrev empty_table : Table
empty_table = record { rows = []; next_id = 1 }

abbrev found : Discovery
found = record { url = "http://a/"; source = "spider"; method = ""; base_url = "http://a"; now = 5 }

abbrev other_writer : Table → Table
other_writer t = (commit false found t).0

save-Keeps_example :
    IsValid (save false other_writer found empty_table).0
    × Keeps empty_table (save false other_writer found empty_table).0
    × (false ≡ false
        → present "http://a/" (save false other_writer found empty_table).0.rows ≡ true)
save-Keeps_example =
    save-Keeps false other_writer found empty_table
      (λ u. Writes.commits false found u u (Writes.stays u)) (tt, tt)

-- the loser of the race answers as for a duplicate, and the url is stored once
lost_race : (save false other_writer found empty_table).1 ≡ none
unfolding save commit
lost_race = refl

stored_once : count (some "spider") (save false other_writer found empty_table).0 ≡ 1
unfolding save commit count
stored_once = refl

unraced : (save false (λ t. t) found empty_table).1 ≡ some 1
unfolding save commit
unraced = refl

next_page : list none 10 1 (save false (λ t. t) found empty_table).0 ≡ []
unfolding save commit list
next_page = refl
