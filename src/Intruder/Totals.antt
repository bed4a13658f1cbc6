-- ===== src/Intruder/Totals.antt =====
-- The numbers of requests that the generators announce and yield, and the cluster bomb's choices.
use pwnproxy.Prelude.{
  arith, ℕ, suc, ◌*◌, String, none, some, List, [], ◌∷◌, ◌++◌, map, ◌⊎◌, inl, inr, subst, length,
  length-append, ◌==◌, nat_eq, ◌≡◌, refl, ap, ◌∙◌, if_true,
}
use pwnproxy.Prelude.Text.{join}
use pwnproxy.Intruder.{
  Marker, Request, sniper_payloads, sniper_from, sniper_generate, sniper_total, each_with, product,
  product_length, cluster_generate, cluster_total,
}

abbrev pub IsIn : {A : Type 0} → A → List A → Type 0
IsIn x [] = ⊥
IsIn x (y ∷ ys) = (x ≡ y) ⊎ IsIn x ys

-- a word of each list
abbrev pub IsChoice : List String → List (List String) → Type 0
IsChoice [] [] = Unit
IsChoice (x ∷ combo) (w ∷ ws) = IsIn x w × IsChoice combo ws
IsChoice combo ws = ⊥

IsIn-left : {A : Type 0} (x : A) (xs ys : List A) → IsIn x xs → IsIn x (xs ++ ys)
IsIn-left x [] ys h = absurd h
IsIn-left x (y ∷ xs) ys (inl e) = inl e
IsIn-left x (y ∷ xs) ys (inr h) = inr (IsIn-left x xs ys h)

IsIn-right : {A : Type 0} (x : A) (xs ys : List A) → IsIn x ys → IsIn x (xs ++ ys)
IsIn-right x [] ys h = h
IsIn-right x (y ∷ xs) ys h = inr (IsIn-right x xs ys h)

IsIn-map : {A B : Type 0} (f : A → B) (x : A) (xs : List A) → IsIn x xs → IsIn (f x) (map f xs)
IsIn-map f x [] h = absurd h
IsIn-map f x (y ∷ xs) (inl e) = inl (ap f e)
IsIn-map f x (y ∷ xs) (inr h) = inr (IsIn-map f x xs h)

each_with-IsIn :
    (x : String) (combo : List String) (w : List String) (rests : List (List String))
    → IsIn x w
    → IsIn combo rests
    → IsIn (x ∷ combo) (each_with w rests)
each_with-IsIn x combo [] rests h k = absurd h
each_with-IsIn x combo (y ∷ w) rests (inl e) k =
    IsIn-left (x ∷ combo) (map (λ rest. y ∷ rest) rests) (each_with w rests) (
      subst (λ z. IsIn (x ∷ combo) (map (λ rest. z ∷ rest) rests)) e
        (IsIn-map (λ rest. x ∷ rest) combo rests k))
each_with-IsIn x combo (y ∷ w) rests (inr h) k =
    IsIn-right (x ∷ combo) (map (λ rest. y ∷ rest) rests) (each_with w rests)
      (each_with-IsIn x combo w rests h k)

product-IsIn :
    (combo : List String) (ws : List (List String)) → IsChoice combo ws → IsIn combo (product ws)
unfolding product
product-IsIn [] [] h = inl refl
product-IsIn [] (w ∷ ws) h = absurd h
product-IsIn (x ∷ combo) [] h = absurd h
product-IsIn (x ∷ combo) (w ∷ ws) h =
    each_with-IsIn x combo w (product ws) h.0 (product-IsIn combo ws h.1)

length-map : {A B : Type 0} (f : A → B) (xs : List A) → length (map f xs) ≡ length xs
length-map f [] = refl
length-map f (x ∷ xs) = ap (λ n. suc n) (length-map f xs)

length-each_with :
    (xs : List String) (rests : List (List String))
    → length (each_with xs rests) ≡ length xs * length rests
length-each_with [] rests = omega arith
length-each_with (x ∷ xs) rests = omega (
  arith,
  length-append (map (λ rest. x ∷ rest) rests) (each_with xs rests),
  length-map (λ (rest : List String). x ∷ rest) rests,
  length-each_with xs rests,
)

length-product : (ws : List (List String)) → length (product ws) ≡ product_length ws
unfolding product product_length
length-product [] = refl
length-product (w ∷ ws) =
    length-each_with w (product ws) ∙ ap (λ n. length w * n) (length-product ws)

module _ (format : List String → String) where
  length-sniper_payloads :
      (idx : ℕ) (wordlist : List String) (markers : List Marker)
      → length (sniper_payloads format idx wordlist markers) ≡ length wordlist
  unfolding sniper_payloads
  length-sniper_payloads idx [] markers = refl
  length-sniper_payloads idx (w ∷ ws) markers = omega (arith, length-sniper_payloads idx ws markers)

  length-sniper_from :
      (todo markers : List Marker) (wordlist : List String)
      → length (sniper_from format todo markers wordlist) ≡ length todo * length wordlist
  unfolding sniper_from
  length-sniper_from [] markers wordlist = omega arith
  length-sniper_from ((idx, _) ∷ todo) markers wordlist = omega (
    arith,
    length-append (sniper_payloads format idx wordlist markers)
        (sniper_from format todo markers wordlist),
    length-sniper_payloads idx wordlist markers,
    length-sniper_from todo markers wordlist,
  )

  -- The sniper yields as many requests as its total says.
  pub length-sniper_generate :
      (markers : List Marker) (wordlist : List String)
      → length (sniper_generate format markers wordlist) ≡ sniper_total markers wordlist
  unfolding sniper_generate sniper_total
  length-sniper_generate markers wordlist = length-sniper_from markers markers wordlist

  pub cluster_generate-total :
      (markers : List Marker) (w : List String) (ws : List (List String))
      → length (w ∷ ws) ≡ length markers
      → (requests : List Request) × (cluster_generate format markers (w ∷ ws) ≡ some requests)
        × (length requests ≡ cluster_total (w ∷ ws))
        × ((combo : List String)
            → IsChoice combo (w ∷ ws)
            → IsIn (join ", " combo, format combo) requests)
  unfolding cluster_generate cluster_total
  cluster_generate-total markers w ws h =
      let request : List String → Request = λ combo. (join ", " combo, format combo) in
      (
        map request (product (w ∷ ws)),
        if_true (length (w ∷ ws) == length markers) (some (map request (product (w ∷ ws)))) none
            (ground arith),
        length-map request (product (w ∷ ws)) ∙ length-product (w ∷ ws),
        λ combo c. IsIn-map request combo (product (w ∷ ws)) (product-IsIn combo (w ∷ ws) c),
      )
