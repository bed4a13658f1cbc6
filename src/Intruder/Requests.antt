-- ===== src/Intruder/Requests.antt =====
-- The requests that the generators yield, and how many.
use pwnproxy.Prelude.{
  arith, ℕ, suc, ◌+◌, ◌<◌, String, true, false, List, [], ◌∷◌, ◌++◌, append_assoc, map, length,
  length-append, ◌==◌, nat_eq, if◌then◌else◌, ◌≡◌, refl, sym, ap, ◌∙◌, subst,
}
use pwnproxy.Intruder.{Marker, Request, fill, sniper_payloads, sniper_from, sniper_generate}

-- markers as `parse_markers` numbers them
abbrev pub IsNumbered : ℕ → List Marker → Type 0
IsNumbered n [] = Unit
IsNumbered n ((i, _) ∷ markers) = (i ≡ n) × IsNumbered (suc n) markers

abbrev pub bases : List Marker → List String
bases markers = map (λ m. m.1) markers

fill-past :
    (i idx : ℕ) (payload : String) (markers : List Marker)
    → idx < i
    → fill i idx payload markers ≡ bases markers
unfolding fill
fill-past i idx payload [] h = refl
fill-past i idx payload ((_, base) ∷ markers) h =
    let rest = fill-past (suc i) idx payload markers (omega arith) in
    let n : (i == idx) ≡ false = ground arith in
    ap (λ b. (if b then payload else base) ∷ fill (suc i) idx payload markers) n
    ∙ ap (λ l. base ∷ l) rest

fill-at :
    (i idx : ℕ) (payload : String) (before : List Marker) (m : Marker) (after : List Marker)
    → idx ≡ i + length before
    → fill i idx payload (before ++ m ∷ after) ≡ bases before ++ payload ∷ bases after
unfolding fill
fill-at i idx payload [] (_, base) after h =
    let rest = fill-past (suc i) idx payload after (omega arith) in
    let y : (i == idx) ≡ true = ground arith in
    ap (λ b. (if b then payload else base) ∷ fill (suc i) idx payload after) y
    ∙ ap (λ l. payload ∷ l) rest
fill-at i idx payload ((_, base) ∷ before) m after h =
    let rest = fill-at (suc i) idx payload before m after (omega arith) in
    let n : (i == idx) ≡ false = ground arith in
    ap (λ b. (if b then payload else base) ∷ fill (suc i) idx payload (before ++ m ∷ after)) n
    ∙ ap (λ l. base ∷ l) rest

bases-append :
    (before : List Marker) (m : Marker) → bases (before ++ m ∷ []) ≡ bases before ++ m.1 ∷ []
bases-append [] m = refl
bases-append (b ∷ before) m = ap (λ l. b.1 ∷ l) (bases-append before m)

module _ (format : List String → String) where
  -- the payload in place of one text, the texts before and after it as they stood
  abbrev pub placed : List String → List String → List String → List Request
  placed before after [] = []
  placed before after (w ∷ ws) = (w, format (before ++ w ∷ after)) ∷ placed before after ws

  abbrev pub placed_each : List String → List Marker → List String → List Request
  placed_each before [] wordlist = []
  placed_each before ((_, base) ∷ markers) wordlist =
      placed before (bases markers) wordlist ++ placed_each (before ++ base ∷ []) markers wordlist

  sniper_payloads-placed :
      (idx : ℕ) (wordlist : List String) (before : List Marker) (m : Marker) (after : List Marker)
      → idx ≡ length before
      → sniper_payloads format idx wordlist (before ++ m ∷ after)
        ≡ placed (bases before) (bases after) wordlist
  unfolding sniper_payloads
  sniper_payloads-placed idx [] before m after h = refl
  sniper_payloads-placed idx (w ∷ ws) before m after h =
      let here = fill-at 0 idx w before m after (omega arith) in
      let rest = sniper_payloads-placed idx ws before m after h in
      ap (λ r. (w, format r) ∷ sniper_payloads format idx ws (before ++ m ∷ after)) here
      ∙ ap (λ l. (w, format (bases before ++ w ∷ bases after)) ∷ l) rest

  sniper_from-placed_each :
      (todo before : List Marker) (wordlist : List String)
      → IsNumbered (length before) todo
      → sniper_from format todo (before ++ todo) wordlist ≡ placed_each (bases before) todo wordlist
  unfolding sniper_from
  sniper_from-placed_each [] before wordlist h = refl
  sniper_from-placed_each ((idx, base) ∷ todo) before wordlist (hi, ht) =
      let m : Marker = (idx, base) in
      let here = sniper_payloads-placed idx wordlist before m todo hi in
      let n : suc (length before) ≡ length (before ++ m ∷ []) =
        omega (arith, length-append before (m ∷ [])) in
      let rest =
        sniper_from-placed_each todo (before ++ m ∷ []) wordlist
          (subst (λ k. IsNumbered k todo) n ht) in
      let same : (before ++ m ∷ []) ++ todo ≡ before ++ m ∷ todo =
        append_assoc before (m ∷ []) todo in
      let next : sniper_from format todo (before ++ m ∷ todo) wordlist
          ≡ placed_each (bases before ++ base ∷ []) todo wordlist =
        ap (λ ms. sniper_from format todo ms wordlist) (sym same)
        ∙ rest
        ∙ ap (λ b. placed_each b todo wordlist) (bases-append before m) in
      ap (λ l. l ++ sniper_from format todo (before ++ m ∷ todo) wordlist) here
      ∙ ap (λ l. placed (bases before) (bases todo) wordlist ++ l) next

  -- For markers numbered in order, the sniper yields, marker by marker and payload by payload, the
  -- request with the payload in that marker's place and every other text as it stood in the template.
  pub sniper_generate-placed_each :
      (markers : List Marker) (wordlist : List String)
      → IsNumbered 0 markers
      → sniper_generate format markers wordlist ≡ placed_each [] markers wordlist
  unfolding sniper_generate
  sniper_generate-placed_each markers wordlist h = sniper_from-placed_each markers [] wordlist h
