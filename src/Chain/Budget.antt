-- ===== src/Chain/Budget.antt =====
-- `BudgetChain.run`: the waves, the points of their calls, and the bounds on each call.
use pwnproxy.Prelude.{
  arith, ℕ, ◌+◌, ◌≤◌, ◌<◌, ◌≡◌, refl, sym, ◌∙◌, subst, ◌⊎◌, inl, inr, not, List, [], ◌∷◌, leb,
  ==_iff, ◌==◌, nat_eq, All, All-append, All-map, Eq, if-holds,
}
use pwnproxy.Chain.{
  DetectionDepth, fast, standard, deep, depth_order, Stage, Call, Run, sort_stages, call_stage,
  new_run, remaining, is_empty, depth_allows, run_wave, wave_stages, run_waves, run_budget,
}
use pwnproxy.Chain.Log.{
  keys_of, confirmed_by, IsAccounted, call_of, call_stage-calls, call_stage-IsAccounted, IsFresh,
  remaining-IsFresh, Ordered, Ordered-snoc, IsFresh-each,
}

-- the order of waves, the first of them not below `n`
abbrev Rising : ℕ → List DetectionDepth → Type 0
Rising n [] = Unit
Rising n (w ∷ ws) = (n ≤ depth_order w) × Rising (depth_order w + 1) ws

All-both {κ μ} :
    {A : Type 0} (P : A → Type κ) (Q : A → Type μ) (xs : List A)
    → All P xs
    → All Q xs
    → All (λ x. P x × Q x) xs
All-both P Q [] h k = tt
All-both P Q (x ∷ xs) h k = ((h.0, k.0), All-both P Q xs h.1 k.1)

module _ {P F K : Type 0} where
  abbrev pub wave_of : Call P F K → ℕ
  wave_of c = depth_order c.stage.min_depth

  wave_stages_lem :
      (w : DetectionDepth) (ss : List (Stage P F K))
      → All (λ s. depth_order s.min_depth ≡ depth_order w) (wave_stages w ss)
  unfolding wave_stages
  wave_stages_lem w [] = tt
  wave_stages_lem w (s ∷ ss) =
      if-holds (All (λ s. depth_order s.min_depth ≡ depth_order w))
        (depth_order s.min_depth == depth_order w)
        (λ h. ((==_iff (depth_order s.min_depth) (depth_order w)).0 h, wave_stages_lem w ss))
        (λ _. wave_stages_lem w ss)

module _ {P F K : Type 0} ⦃e : Eq K⦄ (key : P → K) (budget : ℕ)
    (depth max_depth : DetectionDepth) where
  -- Waves go up; a later wave gets no point whose key an earlier one confirmed; calls of one wave
  -- get the same points.
  abbrev pub WaveOrder : Call P F K → Call P F K → Type 0
  WaveOrder c d =
      (wave_of c ≤ wave_of d)
      × (wave_of c < wave_of d → IsFresh key (keys_of c.outcome) d.points)
      × (wave_of c ≡ wave_of d → c.points ≡ d.points)

  -- A call starts within the budget, and its stage is within the depths.
  abbrev pub IsWithin : Call P F K → Type 0
  IsWithin c =
      (c.elapsed < budget) × (depth_order depth ≤ wave_of c) × (wave_of c ≤ depth_order max_depth)

  abbrev pub IsEscalation : Run P F K → Type 0
  IsEscalation r = IsAccounted r × Ordered WaveOrder r.calls × All IsWithin r.calls

  abbrev Fits : ℕ → List P → Call P F K → Type 0
  Fits w left c =
      ((wave_of c < w) × IsFresh key (keys_of c.outcome) left)
      ⊎ ((wave_of c ≡ w) × (c.points ≡ left))

  abbrev InWave : ℕ → List P → Run P F K → Type 0
  InWave w left r = IsEscalation r × All (Fits w left) r.calls

  abbrev Before : ℕ → Run P F K → Type 0
  Before w r = IsEscalation r × All (λ c. wave_of c < w) r.calls

  Fits-WaveOrder :
      (w : ℕ) (left : List P) (d : Call P F K)
      → wave_of d ≡ w
      → d.points ≡ left
      → (c : Call P F K) → Fits w left c
      → WaveOrder c d
  Fits-WaveOrder w left d h k c (inl (l, f)) = (
    omega arith,
    λ _. subst (IsFresh key (keys_of c.outcome)) (sym k) f,
    λ q. absurd (omega arith),
  )
  Fits-WaveOrder w left d h k c (inr (l, f)) =
      (omega arith, λ q. absurd (omega arith), λ _. f ∙ sym k)

  call_stage-InWave :
      (w : ℕ) (left : List P) (s : Stage P F K) (now : ℕ) (r : Run P F K)
      → depth_order s.min_depth ≡ w
      → now < budget
      → depth_order depth ≤ w
      → w ≤ depth_order max_depth
      → InWave w left r
      → InWave w left (call_stage s left now r)
  call_stage-InWave w left s now r h b l u ((a, o, t), f) =
      let d = call_of s left now in
      let cs = sym (call_stage-calls s left now r) in
      (
        (
          call_stage-IsAccounted s left now r a,
          subst (Ordered WaveOrder) cs (
              Ordered-snoc WaveOrder r.calls d o
                (All-map (Fits-WaveOrder w left d h refl) r.calls f)),
          subst (All IsWithin) cs
              (All-append IsWithin r.calls (d ∷ []) t ((b, omega arith, omega arith), tt)),
        ),
        subst (All (Fits w left)) cs
            (All-append (Fits w left) r.calls (d ∷ []) f (inr (h, refl), tt)),
      )

  run_wave-InWave :
      (clock : ℕ → ℕ) (w : ℕ) (left : List P) (ss : List (Stage P F K)) (n : ℕ) (r : Run P F K)
      → All (λ s. depth_order s.min_depth ≡ w) ss
      → depth_order depth ≤ w
      → w ≤ depth_order max_depth
      → InWave w left r
      → InWave w left (run_wave clock budget left ss n r).1
  unfolding run_wave
  run_wave-InWave clock w left [] n r h l u i = i
  run_wave-InWave clock w left (s ∷ ss) n r h l u i =
      if-holds (λ (x : ℕ × Run P F K). InWave w left x.1) (leb budget (clock n)) (λ _. i)
        (λ q.
          run_wave-InWave clock w left ss (n + 1) (call_stage s left (clock n) r) h.1 l u
            (call_stage-InWave w left s (clock n) r h.0 (ground arith) l u i))

  enter :
      (w : ℕ) (points : List P) (r : Run P F K)
      → Before w r
      → InWave w (remaining key points r.confirmed) r
  enter w points r ((a, o, t), b) =
      let left = remaining key points r.confirmed in
      let fresh : IsFresh key (confirmed_by r.calls) left =
        subst (λ ks. IsFresh key ks left) a.1 (remaining-IsFresh key points r.confirmed) in
      (
        (a, o, t),
        All-map (λ c h. inl h) r.calls
            (All-both (λ c. wave_of c < w) (λ c. IsFresh key (keys_of c.outcome) left) r.calls b
              (IsFresh-each key r.calls left fresh)),
      )

  Fits-below : (w : ℕ) (left : List P) (c : Call P F K) → Fits w left c → wave_of c < w + 1
  Fits-below w left c (inl h) = omega arith
  Fits-below w left c (inr h) = omega arith

  later : (v w : ℕ) (r : Run P F K) → v ≤ w → Before v r → Before w r
  later v w r h b = (b.0, All-map (λ c k. omega arith) r.calls b.1)

  run_waves-IsEscalation :
      (clock : ℕ → ℕ) (stages : List (Stage P F K)) (points : List P) (v : ℕ)
      (waves : List DetectionDepth) (n : ℕ) (r : Run P F K)
      → Rising v waves
      → Before v r
      → IsEscalation (run_waves key clock budget depth max_depth stages points waves n r)
  unfolding run_waves depth_allows
  run_waves-IsEscalation clock stages points v [] n r h b = b.0
  run_waves-IsEscalation clock stages points v (w ∷ ws) n r h b =
      let o = depth_order w in
      let left = remaining key points r.confirmed in
      let now = wave_stages w stages in
      let after = run_wave clock budget left now (n + 1) r in
      let next = later v (o + 1) r (omega (arith, h.0)) b in
      if-holds IsEscalation (not (depth_allows depth max_depth w))
        (λ _. run_waves-IsEscalation clock stages points (o + 1) ws n r h.1 next)
        (λ q.
          if-holds IsEscalation (leb budget (clock n)) (λ _. b.0)
            (λ _.
              if-holds IsEscalation (is_empty left) (λ _. b.0)
                (λ _.
                  if-holds IsEscalation (is_empty now)
                    (λ _. run_waves-IsEscalation clock stages points (o + 1) ws (n + 1) r h.1 next)
                    (λ _.
                      let i =
                        run_wave-InWave clock o left now (n + 1) r (wave_stages_lem w stages)
                          (ground arith) (ground arith) (enter o points r (later v o r h.0 b)) in
                      run_waves-IsEscalation clock stages points (o + 1) ws after.0 after.1 h.1
                        (i.0, All-map (Fits-below o left) after.1.calls i.1)))))

  -- A run of the budget chain goes up the waves between its two depths; each call starts within
  -- the budget; no call of a later wave gets a point whose key an earlier wave confirmed, while
  -- the calls of one wave all get the same points, those that an earlier call of the wave confirmed
  -- included; and the findings and confirmed keys are those that the calls answered.
  pub run_budget-IsEscalation :
      (clock : ℕ → ℕ) (stages : List (Stage P F K)) (points : List P)
      → IsEscalation (run_budget key clock budget depth max_depth stages points)
  unfolding run_budget
  run_budget-IsEscalation clock stages points =
      run_waves-IsEscalation clock (sort_stages stages) points 0 (fast ∷ standard ∷ deep ∷ []) 0
        (new_run P F K) (omega arith, (omega arith, (omega arith, tt))) (((refl, refl), tt, tt), tt)
