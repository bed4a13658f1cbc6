-- ===== src/Prelude/Distinct.antt =====
-- Lists whose elements have pairwise different keys.
use mathlib.Core.Logic.{◌≢◌}
use mathlib.Core.List.{List, [], ◌∷◌, ◌++◌}
use pwnproxy.Prelude.Lists.{All, All-append}

module _ {ℓ κ} {A : Type ℓ} (P : A → Type κ) where
  pub All-split : (xs ys : List A) → All P (xs ++ ys) → All P xs × All P ys
  All-split [] ys a = (tt, a)
  All-split (x ∷ xs) ys a = let r = All-split xs ys a.1 in ((a.0, r.0), r.1)

  pub All-omit : (xs : List A) (x : A) (ys : List A) → All P (xs ++ x ∷ ys) → All P (xs ++ ys)
  All-omit [] x ys a = a.1
  All-omit (z ∷ xs) x ys a = (a.0, All-omit xs x ys a.1)

module _ {ℓ κ} {A : Type ℓ} {K : Type κ} (key : A → K) where
  abbrev pub Distinct : List A → Type (ℓ ⊔ κ)
  Distinct [] = Unit
  Distinct (x ∷ xs) = All (λ y. key y ≢ key x) xs × Distinct xs

  pub Distinct-snoc :
      (xs : List A) (x : A) → Distinct xs → All (λ y. key x ≢ key y) xs → Distinct (xs ++ x ∷ [])
  Distinct-snoc [] x d n = (tt, tt)
  Distinct-snoc (y ∷ xs) x d n =
      (All-append (λ z. key z ≢ key y) xs (x ∷ []) d.0 (n.0, tt), Distinct-snoc xs x d.1 n.1)

  pub Distinct-omit :
      (xs : List A) (x : A) (ys : List A) → Distinct (xs ++ x ∷ ys) → Distinct (xs ++ ys)
  Distinct-omit [] x ys d = d.1
  Distinct-omit (z ∷ xs) x ys d =
      (All-omit (λ y. key y ≢ key z) xs x ys d.0, Distinct-omit xs x ys d.1)

  pub Distinct-left : (xs ys : List A) → Distinct (xs ++ ys) → Distinct xs
  Distinct-left [] ys d = tt
  Distinct-left (x ∷ xs) ys d =
      ((All-split (λ y. key y ≢ key x) xs ys d.0).0, Distinct-left xs ys d.1)
