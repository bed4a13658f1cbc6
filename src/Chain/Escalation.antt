-- ===== src/Chain/Escalation.antt =====
-- `DetectionChain.run`: which stages are called, and on which points.
use pwnproxy.Prelude.{
  arith, ◌≡◌, refl, sym, ap, ◌∙◌, subst, ◌⊎◌, inl, inr, Bool-cases, true, not, List, [], ◌∷◌, ◌++◌,
  map, append-nil, append_assoc, keep_if, Eq, if-holds,
}
use pwnproxy.Chain.{
  DetectionDepth, Stage, Call, Run, should_run, sort_stages, call_stage, new_run, remaining,
  is_empty, run_stages, run,
}
use pwnproxy.Chain.Log.{
  keys_of, confirmed_by, IsAccounted, call_of, call_stage-calls, call_stage-IsAccounted, IsFresh,
  remaining-IsFresh, Ordered, Ordered-snoc, IsFresh-each,
}

empty_lem : {A : Type 0} (xs : List A) → is_empty xs ≡ true → xs ≡ []
empty_lem [] h = refl
empty_lem (x ∷ xs) h = ground arith

module _ {P F K : Type 0} ⦃e : Eq K⦄ (key : P → K) where
  -- the later call gets no point whose key the earlier one confirmed
  abbrev pub NoRetest : Call P F K → Call P F K → Type 0
  NoRetest c d = IsFresh key (keys_of c.outcome) d.points

  -- a true account of the calls, none of which repeats a confirmed point
  abbrev pub IsSound : Run P F K → Type 0
  IsSound r = IsAccounted r × Ordered NoRetest r.calls

  call_left-IsSound :
      (points : List P) (s : Stage P F K) (r : Run P F K)
      → IsSound r
      → IsSound (call_stage s (remaining key points r.confirmed) 0 r)
  call_left-IsSound points s r i =
      let left = remaining key points r.confirmed in
      let fresh : IsFresh key (confirmed_by r.calls) left =
        subst (λ ks. IsFresh key ks left) i.0.1 (remaining-IsFresh key points r.confirmed) in
      (
        call_stage-IsAccounted s left 0 r i.0,
        subst (Ordered NoRetest) (sym (call_stage-calls s left 0 r)) (
            Ordered-snoc NoRetest r.calls (call_of s left 0) i.1
              (IsFresh-each key r.calls left fresh)),
      )

  run_stages-IsSound :
      (depth : DetectionDepth) (points : List P) (ss : List (Stage P F K)) (r : Run P F K)
      → IsSound r
      → IsSound (run_stages key depth points ss r)
  unfolding run_stages
  run_stages-IsSound depth points [] r i = i
  run_stages-IsSound depth points (s ∷ ss) r i =
      if-holds IsSound (not (should_run depth s)) (λ _. run_stages-IsSound depth points ss r i)
        (λ _.
          if-holds IsSound (is_empty (remaining key points r.confirmed)) (λ _. i)
            (λ _. run_stages-IsSound depth points ss _ (call_left-IsSound points s r i)))

  -- The findings and the confirmed keys of a run of the chain are those that its calls answered, in
  -- order, and no call gets a point whose key an earlier call of the run confirmed.
  pub run-IsSound :
      (depth : DetectionDepth) (stages : List (Stage P F K)) (points : List P)
      → IsSound (run key depth stages points)
  unfolding run
  run-IsSound depth stages points =
      run_stages-IsSound depth points (sort_stages stages) (new_run P F K) ((refl, refl), tt)

  -- all points are confirmed, or these stages were called, in this order, after the earlier ones
  abbrev pub IsComplete : List P → List (Stage P F K) → Run P F K → Type 0
  IsComplete points called r =
      (remaining key points r.confirmed ≡ []) ⊎ (map (λ c. c.stage) r.calls ≡ called)

  map-snoc :
      (cs : List (Call P F K)) (c : Call P F K)
      → map (λ c. c.stage) (cs ++ c ∷ []) ≡ map (λ c. c.stage) cs ++ c.stage ∷ []
  map-snoc [] c = refl
  map-snoc (d ∷ cs) c = rw (map-snoc cs c)

  run_stages-IsComplete :
      (depth : DetectionDepth) (points : List P) (ss : List (Stage P F K)) (r : Run P F K)
      → IsComplete points
          (map (λ c. c.stage) r.calls ++ keep_if (should_run depth) ss)
          (run_stages key depth points ss r)
  unfolding run_stages
  run_stages-IsComplete depth points [] r = inr (sym (append-nil (map (λ c. c.stage) r.calls)))
  run_stages-IsComplete depth points (s ∷ ss) r = elim (Bool-cases (should_run depth s)) [
    | inr p ↦ rw (p, run_stages) (run_stages-IsComplete depth points ss r)
    | inl p ↦
        let left = remaining key points r.confirmed in
        let done = map (λ (c : Call P F K). c.stage) r.calls in
        let rest = keep_if (should_run depth) ss in
        rw (p, run_stages)
          (if-holds (IsComplete points (done ++ s ∷ rest)) (is_empty left)
            (λ q. inl (empty_lem left q))
            (λ _.
              subst
                (λ xs.
                  IsComplete points xs (run_stages key depth points ss (call_stage s left 0 r)))
                (ap (λ cs. map (λ c. c.stage) cs ++ rest) (call_stage-calls s left 0 r)
                  ∙ ap (λ xs. xs ++ rest) (map-snoc r.calls (call_of s left 0))
                  ∙ append_assoc done (s ∷ []) rest)
                (run_stages-IsComplete depth points ss (call_stage s left 0 r))))
  ]

  pub run-IsComplete :
      (depth : DetectionDepth) (stages : List (Stage P F K)) (points : List P)
      → IsComplete points
          (keep_if (should_run depth) (sort_stages stages))
          (run key depth stages points)
  unfolding run
  run-IsComplete depth stages points =
      run_stages-IsComplete depth points (sort_stages stages) (new_run P F K)
