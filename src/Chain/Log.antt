-- ===== src/Chain/Log.antt =====
-- The log of a chain's calls of `execute`, read back.
use pwnproxy.Prelude.{
  arith, ℕ, ◌≡◌, refl, sym, ap, ◌∙◌, false, List, [], ◌∷◌, ◌++◌, append-nil, append_assoc, All,
  All-append, All-map, Eq,
}
use pwnproxy.Chain.{
  Outcome, result, raised, Stage, Call, Run, is_confirmed, remaining, call_stage, record_call,
}

abbrev pub keys_of : {F K : Type 0} → Outcome F K → List K
keys_of (result fs ks) = ks
keys_of raised = []

abbrev pub findings_of : {F K : Type 0} → Outcome F K → List F
findings_of (result fs ks) = fs
findings_of raised = []

module _ {P F K : Type 0} where
  -- the keys that the calls confirmed, and what they found
  abbrev pub confirmed_by : List (Call P F K) → List K
  confirmed_by [] = []
  confirmed_by (c ∷ cs) = keys_of c.outcome ++ confirmed_by cs

  abbrev pub found_by : List (Call P F K) → List F
  found_by [] = []
  found_by (c ∷ cs) = findings_of c.outcome ++ found_by cs

  -- the run holds what its calls answered, no more and no less
  abbrev pub IsAccounted : Run P F K → Type 0
  IsAccounted r = (r.findings ≡ found_by r.calls) × (r.confirmed ≡ confirmed_by r.calls)

  pub confirmed_by-append :
      (cs ds : List (Call P F K)) → confirmed_by (cs ++ ds) ≡ confirmed_by cs ++ confirmed_by ds
  confirmed_by-append [] ds = refl
  confirmed_by-append (c ∷ cs) ds =
      rw (confirmed_by-append cs ds)
        (sym (append_assoc (keys_of c.outcome) (confirmed_by cs) (confirmed_by ds)))

  pub found_by-append :
      (cs ds : List (Call P F K)) → found_by (cs ++ ds) ≡ found_by cs ++ found_by ds
  found_by-append [] ds = refl
  found_by-append (c ∷ cs) ds =
      rw (found_by-append cs ds)
        (sym (append_assoc (findings_of c.outcome) (found_by cs) (found_by ds)))

  abbrev pub call_of : Stage P F K → List P → ℕ → Call P F K
  call_of s points now = record {
    stage = s;
    points = points;
    outcome = s.execute points;
    elapsed = now;
  }

  pub call_stage-calls :
      (s : Stage P F K) (points : List P) (now : ℕ) (r : Run P F K)
      → (call_stage s points now r).calls ≡ r.calls ++ call_of s points now ∷ []
  unfolding call_stage
  call_stage-calls s points now r = go (s.execute points) refl
    where
      go :
          (o : Outcome F K)
          → s.execute points ≡ o
          → (record_call s points now o r).calls ≡ r.calls ++ call_of s points now ∷ []
      go (result fs ks) h = rw h
      go raised h = rw h

  -- one more call at the end of a list of calls
  snoc_keys :
      (cs : List (Call P F K)) (c : Call P F K)
      → confirmed_by (cs ++ c ∷ []) ≡ confirmed_by cs ++ keys_of c.outcome
  snoc_keys cs c =
      confirmed_by-append cs (c ∷ [])
      ∙ ap (λ ks. confirmed_by cs ++ ks) (append-nil (keys_of c.outcome))

  snoc_findings :
      (cs : List (Call P F K)) (c : Call P F K)
      → found_by (cs ++ c ∷ []) ≡ found_by cs ++ findings_of c.outcome
  snoc_findings cs c =
      found_by-append cs (c ∷ [])
      ∙ ap (λ fs. found_by cs ++ fs) (append-nil (findings_of c.outcome))

  record_call-IsAccounted :
      (s : Stage P F K) (points : List P) (now : ℕ) (o : Outcome F K) (r : Run P F K)
      → IsAccounted r
      → IsAccounted (record_call s points now o r)
  record_call-IsAccounted s points now (result fs ks) r i =
      let c : Call P F K = record {
        stage = s;
        points = points;
        outcome = result fs ks;
        elapsed = now;
      } in
      (
        ap (λ xs. xs ++ fs) i.0 ∙ sym (snoc_findings r.calls c),
        ap (λ xs. xs ++ ks) i.1 ∙ sym (snoc_keys r.calls c),
      )
  record_call-IsAccounted s points now raised r i =
      let c : Call P F K = record { stage = s; points = points; outcome = raised; elapsed = now } in
      (
        i.0 ∙ sym (append-nil (found_by r.calls)) ∙ sym (snoc_findings r.calls c),
        i.1 ∙ sym (append-nil (confirmed_by r.calls)) ∙ sym (snoc_keys r.calls c),
      )

  pub call_stage-IsAccounted :
      (s : Stage P F K) (points : List P) (now : ℕ) (r : Run P F K)
      → IsAccounted r
      → IsAccounted (call_stage s points now r)
  unfolding call_stage
  call_stage-IsAccounted s points now r i =
      record_call-IsAccounted s points now (s.execute points) r i

-- Lists read as sequences of calls.
module _ {ℓ κ} {A : Type ℓ} (R : A → A → Type κ) where
  -- each entry is related to all later ones
  abbrev pub Ordered : List A → Type κ
  Ordered [] = Unit
  Ordered (x ∷ xs) = All (R x) xs × Ordered xs

  pub Ordered-snoc :
      (xs : List A) (y : A) → Ordered xs → All (λ x. R x y) xs → Ordered (xs ++ y ∷ [])
  Ordered-snoc [] y o h = (tt, tt)
  Ordered-snoc (x ∷ xs) y o h =
      (All-append (R x) xs (y ∷ []) o.0 (h.0, tt), Ordered-snoc xs y o.1 h.1)

module _ {P K : Type 0} ⦃e : Eq K⦄ (key : P → K) where
  -- no key of the points is among these keys
  abbrev pub IsFresh : List K → List P → Type 0
  IsFresh ks points = All (λ p. is_confirmed key ks p ≡ false) points

  pub remaining-IsFresh : (points : List P) (ks : List K) → IsFresh ks (remaining key points ks)
  unfolding remaining
  remaining-IsFresh [] ks = tt
  remaining-IsFresh (p ∷ ps) ks = ground (arith, remaining-IsFresh ps ks)

  is_confirmed-left :
      (ks ls : List K) (p : P)
      → is_confirmed key (ks ++ ls) p ≡ false
      → is_confirmed key ks p ≡ false
  is_confirmed-left [] ls p h = refl
  is_confirmed-left (k ∷ ks) ls p h = ground (arith, is_confirmed-left ks ls p)

  is_confirmed-right :
      (ks ls : List K) (p : P)
      → is_confirmed key (ks ++ ls) p ≡ false
      → is_confirmed key ls p ≡ false
  is_confirmed-right [] ls p h = h
  is_confirmed-right (k ∷ ks) ls p h = ground (arith, is_confirmed-right ks ls p)

module _ {P F K : Type 0} ⦃e : Eq K⦄ (key : P → K) where
  -- points that no call of a list confirmed, against each of the calls
  pub IsFresh-each :
      (cs : List (Call P F K)) (points : List P)
      → IsFresh key (confirmed_by cs) points
      → All (λ c. IsFresh key (keys_of c.outcome) points) cs
  IsFresh-each [] points h = tt
  IsFresh-each (c ∷ cs) points h = (
    All-map (λ p. is_confirmed-left key (keys_of c.outcome) (confirmed_by cs) p) points h,
    IsFresh-each cs points
        (All-map (λ p. is_confirmed-right key (keys_of c.outcome) (confirmed_by cs) p) points h),
  )
