-- ===== src/Examples/Intruders.antt =====
-- The requests of a sniper over two markers and two payloads.
use pwnproxy.Prelude.{length, none, some, String, List, [], ◌∷◌, ◌≡◌, refl}
use pwnproxy.Prelude.Text.{join}
use pwnproxy.Intruder.{
  Marker, Request, cluster_total, fill, sniper_payloads, sniper_from, sniper_generate, product,
  cluster_generate,
}
use pwnproxy.Intruder.Requests.{placed_each, sniper_generate-placed_each}
use pwnproxy.Intruder.Totals.{IsIn, IsChoice, cluster_generate-total}

abbrev format : List String → String
format texts = join "&" texts

abbrev markers : List Marker
markers = (0, "a") ∷ (1, "b") ∷ []

abbrev wordlist : List String
wordlist = "x" ∷ "y" ∷ []

sniper_generate-placed_each_example :
    sniper_generate format markers wordlist ≡ placed_each format [] markers wordlist
sniper_generate-placed_each_example =
    sniper_generate-placed_each format markers wordlist (refl, (refl, tt))

sniper_requests :
    sniper_generate format markers wordlist
    ≡ ("x", "x&b") ∷ ("y", "y&b") ∷ ("x", "a&x") ∷ ("y", "a&y") ∷ []
unfolding sniper_generate sniper_from sniper_payloads fill join
sniper_requests = refl

cluster_requests :
    cluster_generate format markers (wordlist ∷ ("z" ∷ []) ∷ [])
    ≡ some (("x, z", "x&z") ∷ ("y, z", "y&z") ∷ [])
unfolding cluster_generate product join
cluster_requests = refl

one_wordlist_short : cluster_generate format markers (wordlist ∷ []) ≡ none
unfolding cluster_generate
one_wordlist_short = refl

cluster_generate-total_example :
    (requests : List Request) × (cluster_generate format markers (wordlist ∷ ("z" ∷ []) ∷ [])
      ≡ some requests)
    × (length requests ≡ cluster_total (wordlist ∷ ("z" ∷ []) ∷ []))
    × ((combo : List String)
        → IsChoice combo (wordlist ∷ ("z" ∷ []) ∷ [])
        → IsIn (join ", " combo, format combo) requests)
cluster_generate-total_example =
    cluster_generate-total format markers wordlist (("z" ∷ []) ∷ []) refl
