-- ===== src/Session/Providers/Flags.antt =====
-- The flags of the plugins, kept in a session and applied again.
use pwnproxy.Prelude.{
  arith, String, Bool, true, false, not, Option, none, some, List, [], ◌∷◌, any_of, map, keep_if,
  All, ◌==◌, ==_iff, ==_refl, string_eq, if-holds, if_true, if_false, Bool-cases, Option-cases, ◌≡◌,
  ◌≢◌, refl, sym, ap, ◌∙◌, subst, ◌⊎◌, inl, inr,
}
use pwnproxy.Prelude.Distinct.{Distinct}
use pwnproxy.Dict.{Dict, get, put, get-put}
use pwnproxy.Plugins.Loader.{
  Plugin, Loader, all_consumes, cancel_tasks, set_disabled, activate, deactivate_plugin, deactivate,
  watchdog_stats,
}
use pwnproxy.Plugins.Loader.Tasks.{start_tasks-plugins, deactivate-eq, activate-eq}
use pwnproxy.Session.Providers.{apply_flag, apply_flags}

abbrev pub fst_key : {V : Type 0} → String × V → String
fst_key e = e.0

-- the flag of a plugin that is there
abbrev flag : Option Plugin → Bool
flag none = false
flag (some p) = p.disabled

stats_none :
    (d : Dict String Plugin) (name : String)
    → All (λ e. e.0 ≢ name) d
    → any_of (λ n. n == name) (map (λ e. e.0) (keep_if (λ e. e.1.disabled) d)) ≡ false
stats_none [] name a = refl
stats_none ((j, p) ∷ d) name a =
    ground (arith, string_eq.decides j name, a.0, stats_none d name a.1)

stats_flag :
    (d : Dict String Plugin) (name : String)
    → Distinct fst_key d
    → any_of (λ n. n == name) (map (λ e. e.0) (keep_if (λ e. e.1.disabled) d)) ≡ flag (get d name)
unfolding get
stats_flag [] name u = refl
stats_flag ((j, p) ∷ d) name u = elim (Bool-cases (j == name)) [
  | inl e ↦
      let same : j ≡ name = (==_iff j name).0 e in
      let others = stats_none d name (subst (λ k. All (λ e. e.0 ≢ k) d) same u.0) in
      ground (arith, e, others)
  | inr n ↦ ground (arith, n, stats_flag d name u.1)
]

put_others :
    {V : Type 0} (d : Dict String V) (k j : String) (v : V)
    → k ≢ j
    → All (λ e. e.0 ≢ j) d
    → All (λ e. e.0 ≢ j) (put d k v)
unfolding put
put_others [] k j v n a = (n, tt)
put_others ((i, w) ∷ d) k j v n a = elim (Bool-cases (i == k)) [
  | inl e ↦ rw (e, put) (a.0, a.1)
  | inr e ↦ rw (e, put) (a.0, put_others d k j v n a.1)
]

put-Distinct :
    {V : Type 0} (d : Dict String V) (k : String) (v : V)
    → Distinct fst_key d
    → Distinct fst_key (put d k v)
unfolding put
put-Distinct [] k v u = (tt, tt)
put-Distinct ((j, w) ∷ d) k v u = elim (Bool-cases (j == k)) [
  | inl e ↦ rw (e, put) (u.0, u.1)
  | inr e ↦
      rw (e, put)
        (
          put_others d k j v (λ s. absurd (ground (arith, ==_refl k, string_eq.decides j k, e, s)))
              u.0,
          put-Distinct d k v u.1,
        )
]

-- what the application of one flag does to the plugins
abbrev Effect : String → Bool → Loader → Loader → Type 0
Effect name b l u =
    (u.plugins ≡ l.plugins) × (flag (get l.plugins name) ≡ b ⊎ (get l.plugins name ≡ none))
    ⊎ (p : Plugin) × (get l.plugins name ≡ some p)
      × (u.plugins ≡ put l.plugins name (record p { disabled = b }))

was_flag :
    (name : String) (l : Loader)
    → Distinct fst_key l.plugins
    → any_of (λ n. n == name) (watchdog_stats l) ≡ flag (get l.plugins name)
unfolding watchdog_stats
was_flag name l u = stats_flag l.plugins name u

deactivated-plugins :
    (name : String) (p : Plugin) (l : Loader)
    → get l.plugins name ≡ some p
    → p.disabled ≡ false
    → (deactivate name l).1.plugins ≡ put l.plugins name (record p { disabled = true })
unfolding cancel_tasks
deactivated-plugins name p l g d = ap (λ u. u.plugins) (deactivate-eq name p l g d)

activated-plugins :
    (name : String) (p : Plugin) (l : Loader)
    → get l.plugins name ≡ some p
    → p.disabled ≡ true
    → (activate name l).1.plugins ≡ put l.plugins name (record p { disabled = false })
activated-plugins name p l g d =
    ap (λ u. u.plugins) (activate-eq name p l g d)
    ∙ start_tasks-plugins name (all_consumes p) (set_disabled name p false l)

deactivate-absent :
    (name : String) (l : Loader) → get l.plugins name ≡ none → (deactivate name l).1 ≡ l
unfolding deactivate deactivate_plugin
deactivate-absent name l g = ap (λ o. (deactivate_plugin name o l).1) g

apply_flag-Effect :
    (name : String) (b : Bool) (l : Loader)
    → Distinct fst_key l.plugins
    → Effect name b l (apply_flag name b l)
unfolding apply_flag
apply_flag-Effect name true l u =
    let was = was_flag name l u in
    elim (Option-cases (get l.plugins name)) [
      | inl g ↦
          if-holds (Effect name true l) (not (any_of (λ n. n == name) (watchdog_stats l)))
            (λ _. inl (ap (λ m. m.plugins) (deactivate-absent name l g), inr g))
            (λ _. inl (refl, inr g))
      | inr (p, g) ↦
          let flagged : flag (get l.plugins name) ≡ p.disabled = ap flag g in
          if-holds (Effect name true l) (not (any_of (λ n. n == name) (watchdog_stats l)))
            (λ n. inr (p, g, deactivated-plugins name p l g (ground (arith, n, was, flagged))))
            (λ n. inl (refl, inl (ground (arith, n, was))))
    ]
apply_flag-Effect name false l u =
    let was = was_flag name l u in
    elim (Option-cases (get l.plugins name)) [
      | inl g ↦
          if-holds (Effect name false l) (any_of (λ n. n == name) (watchdog_stats l))
            (λ h. absurd (ground (arith, h, was, ap flag g))) (λ _. inl (refl, inr g))
      | inr (p, g) ↦
          let flagged : flag (get l.plugins name) ≡ p.disabled = ap flag g in
          if-holds (Effect name false l) (any_of (λ n. n == name) (watchdog_stats l))
            (λ h. inr (p, g, activated-plugins name p l g (ground (arith, h, was, flagged))))
            (λ n. inl (refl, inl (ground (arith, n, was))))
    ]

apply_flag-Distinct :
    (name : String) (b : Bool) (l : Loader)
    → Distinct fst_key l.plugins
    → Distinct fst_key (apply_flag name b l).plugins
apply_flag-Distinct name b l u = elim (apply_flag-Effect name b l u) [
  | inl e ↦ subst (Distinct fst_key) (sym e.0) u
  | inr (p, g, e) ↦
      subst (Distinct fst_key) (sym e) (put-Distinct l.plugins name (record p { disabled = b }) u)
]

apply_flag-other :
    (name other : String) (b : Bool) (l : Loader)
    → Distinct fst_key l.plugins
    → name ≢ other
    → get (apply_flag name b l).plugins other ≡ get l.plugins other
apply_flag-other name other b l u n = elim (apply_flag-Effect name b l u) [
  | inl e ↦ ap (λ d. get d other) e.0
  | inr (p, g, e) ↦
      ap (λ d. get d other) e
      ∙ get-put l.plugins name other (record p { disabled = b })
      ∙ if_false (name == other) _ _ (ground (arith, string_eq.decides name other, n))
]

apply_flag-own :
    (name : String) (b : Bool) (p : Plugin) (l : Loader)
    → Distinct fst_key l.plugins
    → get l.plugins name ≡ some p
    → get (apply_flag name b l).plugins name ≡ some (record p { disabled = b })
apply_flag-own name b p l u g = elim (apply_flag-Effect name b l u) [
  | inl (e, inl f) ↦
      let same : p.disabled ≡ b = sym (ap flag g) ∙ f in
      ap (λ d. get d name) e ∙ g ∙ ap (λ c. some (record p { disabled = c })) same
  | inl (e, inr n) ↦ absurd (ground (arith, g, n))
  | inr (q, h, e) ↦
      ap (λ d. get d name) e
      ∙ get-put l.plugins name name (record q { disabled = b })
      ∙ if_true (name == name) _ _ (==_refl name)
      ∙ ap
          (λ (o : Option Plugin). elim o [
            | none ↦ some (record p { disabled = b })
            | some r ↦ some (record r { disabled = b })
          ])
          (sym h ∙ g)
]

apply_flags-other :
    (st : List (String × Bool)) (name : String) (l : Loader)
    → Distinct fst_key l.plugins
    → All (λ e. e.0 ≢ name) st
    → get (apply_flags st l).plugins name ≡ get l.plugins name
unfolding apply_flags
apply_flags-other [] name l u a = refl
apply_flags-other ((n, b) ∷ st) name l u a =
    apply_flags-other st name (apply_flag n b l) (apply_flag-Distinct n b l u) a.1
    ∙ apply_flag-other n name b l u a.0

-- Applying the flags that a session keeps gives every plugin that is loaded, and that the session
-- has a flag of, this flag, and changes nothing else of its entry; where no name occurs twice among
-- the plugins or in the session.
pub apply_flags-get :
    (st : List (String × Bool)) (l : Loader) (name : String) (b : Bool) (p : Plugin)
    → Distinct fst_key st
    → Distinct fst_key l.plugins
    → get st name ≡ some b
    → get l.plugins name ≡ some p
    → get (apply_flags st l).plugins name ≡ some (record p { disabled = b })
unfolding apply_flags get
apply_flags-get [] l name b p s u h g = absurd (ground (arith, h))
apply_flags-get ((n, c) ∷ st) l name b p s u h g = elim (Bool-cases (n == name)) [
  | inl e ↦
      let same : n ≡ name = (==_iff n name).0 e in
      let flagged : some c ≡ some b = sym (if_true (n == name) _ _ e) ∙ h in
      apply_flags-other st name (apply_flag n c l) (apply_flag-Distinct n c l u)
        (subst (λ k. All (λ e. e.0 ≢ k) st) same s.0)
      ∙ ap (λ k. get (apply_flag k c l).plugins name) same
      ∙ apply_flag-own name c p l u g
      ∙ ap
          (λ (o : Option Bool). elim o [
            | none ↦ some p
            | some x ↦ some (record p { disabled = x })
          ])
          flagged
  | inr d ↦
      apply_flags-get st (apply_flag n c l) name b p s.1 (apply_flag-Distinct n c l u)
        (sym (if_false (n == name) _ _ d) ∙ h)
        (apply_flag-other n name c l u (ground (arith, string_eq.decides n name, d)) ∙ g)
]
