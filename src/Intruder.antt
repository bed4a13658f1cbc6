-- ===== src/Intruder.antt =====
-- pwnproxy/services/intruder/generator.py: SniperGenerator and ClusterBombGenerator. The template's
-- `format` is a parameter; a marker is its number and the text that stood there.
pub mod Requests
pub mod Totals
use pwnproxy.Prelude.{
  ℕ, zero, suc, ◌*◌, String, Option, none, some, List, [], ◌∷◌, ◌++◌, map, length, ◌==◌, nat_eq,
  if◌then◌else◌,
}
use pwnproxy.Prelude.Text.{join}

abbrev pub Marker : Type 0
Marker = ℕ × String

-- a payload, or the payloads' label, with the request
abbrev pub Request : Type 0
Request = String × String

-- the texts of the request in which the payload stands at the marker `idx`, from marker `i` on
unfoldable pub fill : ℕ → ℕ → String → List Marker → List String
fill i idx payload [] = []
fill i idx payload ((_, base) ∷ markers) =
    (if i == idx then payload else base) ∷ fill (suc i) idx payload markers

module _ (format : List String → String) where
  unfoldable pub sniper_payloads : ℕ → List String → List Marker → List Request
  sniper_payloads idx [] markers = []
  sniper_payloads idx (payload ∷ wordlist) markers =
      (payload, format (fill 0 idx payload markers)) ∷ sniper_payloads idx wordlist markers

  -- the loop over the markers `todo` of all
  unfoldable pub sniper_from : List Marker → List Marker → List String → List Request
  sniper_from [] markers wordlist = []
  sniper_from ((idx, _) ∷ todo) markers wordlist =
      sniper_payloads idx wordlist markers ++ sniper_from todo markers wordlist

  -- `SniperGenerator._generate`
  unfoldable pub sniper_generate : List Marker → List String → List Request
  sniper_generate markers wordlist = sniper_from markers markers wordlist

unfoldable pub sniper_total : List Marker → List String → ℕ
sniper_total markers wordlist = length markers * length wordlist

abbrev pub each_with : List String → List (List String) → List (List String)
each_with [] rests = []
each_with (x ∷ xs) rests = map (λ rest. x ∷ rest) rests ++ each_with xs rests

-- `itertools.product`
unfoldable pub product : List (List String) → List (List String)
product [] = [] ∷ []
product (w ∷ ws) = each_with w (product ws)

-- `ClusterBombGenerator._generate`; `none` is the ValueError
unfoldable pub cluster_generate :
    (List String → String) → List Marker → List (List String) → Option (List Request)
cluster_generate format markers wordlists =
    if length wordlists == length markers
    then some (map (λ combo. (join ", " combo, format combo)) (product wordlists))
    else none

unfoldable pub product_length : List (List String) → ℕ
product_length [] = 1
product_length (w ∷ ws) = length w * product_length ws

unfoldable pub cluster_total : List (List String) → ℕ
cluster_total [] = 0
cluster_total (w ∷ ws) = product_length (w ∷ ws)
