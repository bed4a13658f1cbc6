-- ===== src/Plugins/Loader/Tasks.antt =====
-- The consumer tasks of plugins that are deactivated and activated.
use Prim.Native.String.{count as char_count, ◌++◌ as ◌<>◌}
use text.Mathlib.Text.{starts_with}
use text.Mathlib.TextPositions.{starts_with-append}
use text.Mathlib.TextLemmas
use pwnproxy.Prelude.{
  arith, ℕ, String, Bool, true, false, not, ◌||◌, none, some, List, [], ◌∷◌, ◌++◌, any_of, keep_if,
  All, ◌==◌, ==_iff, ==_refl, nat_eq, string_eq, if◌then◌else◌, if_true, if_false, Bool-cases, ◌≡◌,
  ◌≢◌, refl, sym, ap, ◌∙◌, subst, inl, inr,
}
use pwnproxy.Dict.{Dict, get, get-put, get-put_self}
use pwnproxy.Plugins.Loader.{
  Plugin, Task, Loader, implicit_consumes, all_consumes, task_key, start_task, start_tasks,
  is_prefixed, cancel_tasks, set_disabled, activate_plugin, activate, deactivate_plugin, deactivate,
}

get-keep_if :
    {V : Type 0} (p : String → Bool) (d : Dict String V) (k : String)
    → get (keep_if (λ e. not (p e.0)) d) k ≡ (if p k then none else get d k)
unfolding get
get-keep_if p [] k = ground arith
get-keep_if p ((j, v) ∷ d) k = elim (Bool-cases (j == k)) [
  | inl e ↦
      let same : p j ≡ p k = ap p ((==_iff j k).0 e) in ground (arith, same, e, get-keep_if p d k)
  | inr n ↦ ground (arith, n, get-keep_if p d k)
]

-- what a deactivation leaves
pub deactivate-eq :
    (name : String) (p : Plugin) (l : Loader)
    → get l.plugins name ≡ some p
    → p.disabled ≡ false
    → (deactivate name l).1 ≡ cancel_tasks name (set_disabled name p true l)
unfolding deactivate deactivate_plugin
deactivate-eq name p l g d =
    ap (λ o. (deactivate_plugin name o l).1) g
    ∙ ap (λ (r : Bool × Loader). r.1) (if_false p.disabled _ _ d)

cancelled-tasks :
    (name key : String) (l : Loader)
    → get (cancel_tasks name l).plugin_tasks key
      ≡ (if is_prefixed name key then none else get l.plugin_tasks key)
unfolding cancel_tasks
cancelled-tasks name key l = get-keep_if (is_prefixed name) l.plugin_tasks key

longer_differs : (name rest : String) → name ≢ name <> ("_" <> rest)
longer_differs name rest e = absurd (
    omega (
      arith,
      ap char_count e,
      TextLemmas.length-append name ("_" <> rest),
      TextLemmas.length-append "_" rest,
    ))

-- the key of a longer name begins like those of the name
longer_prefixed :
    (name rest text : String) → is_prefixed name ((name <> ("_" <> rest)) <> text) ≡ true
longer_prefixed name rest text =
    ap (λ s. starts_with s (name <> "_"))
      (TextLemmas.append_assoc name ("_" <> rest) text
        ∙ ap (λ s. name <> s) (TextLemmas.append_assoc "_" rest text)
        ∙ sym (TextLemmas.append_assoc name "_" (rest <> text)))
    ∙ starts_with-append (name <> "_") (rest <> text)

cancelled-plugins :
    (name other : String) (p : Plugin) (l : Loader)
    → name ≢ other
    → get (cancel_tasks name (set_disabled name p true l)).plugins other ≡ get l.plugins other
unfolding cancel_tasks
cancelled-plugins name other p l n =
    get-put l.plugins name other (record p { disabled = true })
    ∙ if_false (name == other) _ _ (ground (arith, string_eq.decides name other, n))

pub deactivate-longer :
    (name rest consume_type : String) (p : Plugin) (l : Loader)
    → get l.plugins name ≡ some p
    → p.disabled ≡ false
    → let other = name <> ("_" <> rest) in
      let u = (deactivate name l).1 in
      (get u.plugin_tasks (task_key other consume_type) ≡ none)
      × (get u.plugins other ≡ get l.plugins other)
deactivate-longer name rest consume_type p l g d =
    let other = name <> ("_" <> rest) in
    let eq = deactivate-eq name p l g d in
    (
      ap (λ u. get u.plugin_tasks (task_key other consume_type)) eq
          ∙ cancelled-tasks name (task_key other consume_type) (set_disabled name p true l)
          ∙ if_true _ _ _ (longer_prefixed name rest ("_" <> consume_type)),
      ap (λ u. get u.plugins other) eq
          ∙ cancelled-plugins name other p l (longer_differs name rest),
    )

-- a task of the plugin for this type is stored under its key, and runs
abbrev pub HasTask : String → Loader → String → Type 0
HasTask name l c =
    (n : ℕ) × (get l.plugin_tasks (task_key name c) ≡ some n)
    × (any_of (λ t. t.number == n) l.running ≡ true)

any_of-append :
    {A : Type 0} (f : A → Bool) (xs ys : List A)
    → any_of f (xs ++ ys) ≡ (any_of f xs || any_of f ys)
any_of-append f [] ys = refl
any_of-append f (x ∷ xs) ys = ground (arith, any_of-append f xs ys)

start_task-runs :
    (name c : String) (l : Loader)
    → any_of (λ t. t.number == l.created) (start_task name c l).running ≡ true
unfolding start_task
start_task-runs name c l = ground (
  arith,
  any_of-append (λ (t : Task). t.number == l.created) l.running
      (record { number = l.created; plugin = name; consume_type = c } ∷ []),
  ==_refl l.created,
)

start_task-HasTask : (name c : String) (l : Loader) → HasTask name (start_task name c l) c
unfolding start_task
start_task-HasTask name c l =
    (l.created, get-put_self l.plugin_tasks (task_key name c) l.created, start_task-runs name c l)

start_task-keeps :
    (name c other : String) (l : Loader)
    → HasTask name l other
    → HasTask name (start_task name c l) other
unfolding start_task
start_task-keeps name c other l h =
    let put_ = get-put l.plugin_tasks (task_key name c) (task_key name other) l.created in
    elim (Bool-cases (task_key name c == task_key name other)) [
      | inl e ↦ (l.created, put_ ∙ if_true _ _ _ e, start_task-runs name c l)
      | inr d ↦ (
        h.0,
        put_ ∙ if_false _ _ _ d ∙ h.1,
        ground (
          arith,
          h.2,
          any_of-append (λ (t : Task). t.number == h.0) l.running
              (record { number = l.created; plugin = name; consume_type = c } ∷ []),
        ),
      )
    ]

start_tasks-keeps :
    (name other : String) (cs : List String) (l : Loader)
    → HasTask name l other
    → HasTask name (start_tasks name cs l) other
unfolding start_tasks
start_tasks-keeps name other [] l h = h
start_tasks-keeps name other (c ∷ cs) l h =
    start_tasks-keeps name other cs (start_task name c l) (start_task-keeps name c other l h)

start_tasks-HasTask :
    (name : String) (cs : List String) (l : Loader) → All (HasTask name (start_tasks name cs l)) cs
unfolding start_tasks
start_tasks-HasTask name [] l = tt
start_tasks-HasTask name (c ∷ cs) l = (
  start_tasks-keeps name c cs (start_task name c l) (start_task-HasTask name c l),
  start_tasks-HasTask name cs (start_task name c l),
)

pub start_tasks-plugins :
    (name : String) (cs : List String) (l : Loader) → (start_tasks name cs l).plugins ≡ l.plugins
unfolding start_tasks start_task
start_tasks-plugins name [] l = refl
start_tasks-plugins name (c ∷ cs) l = start_tasks-plugins name cs _

pub activate-eq :
    (name : String) (p : Plugin) (l : Loader)
    → get l.plugins name ≡ some p
    → p.disabled ≡ true
    → (activate name l).1 ≡ start_tasks name (all_consumes p) (set_disabled name p false l)
unfolding activate activate_plugin
activate-eq name p l g d =
    ap (λ o. (activate_plugin name o l).1) g
    ∙ ap (λ (r : Bool × Loader). r.1) (if_false (not p.disabled) _ _ (ap not d))

own_prefixed : (name c : String) → is_prefixed name (task_key name c) ≡ true
own_prefixed name c =
    ap (λ s. starts_with s (name <> "_")) (sym (TextLemmas.append_assoc name "_" c))
    ∙ starts_with-append (name <> "_") c

cancelled_self :
    (name : String) (p : Plugin) (l : Loader)
    → get (cancel_tasks name (set_disabled name p true l)).plugins name
      ≡ some (record p { disabled = true })
unfolding cancel_tasks
cancelled_self name p l = get-put_self l.plugins name (record p { disabled = true })

pub deactivate-activate :
    (name : String) (p : Plugin) (l : Loader)
    → get l.plugins name ≡ some p
    → p.disabled ≡ false
    → let u = (deactivate name l).1 in
      let v = (activate name u).1 in
      (get u.plugins name ≡ some (record p { disabled = true }))
      × ((c : String) → get u.plugin_tasks (task_key name c) ≡ none)
      × (get v.plugins name ≡ some p)
      × All (HasTask name v) (all_consumes p)
unfolding all_consumes implicit_consumes
deactivate-activate name p l g d =
    let off = record p { disabled = true } in
    let u = (deactivate name l).1 in
    let eq = deactivate-eq name p l g d in
    let disabled : get u.plugins name ≡ some off =
      ap (λ u. get u.plugins name) eq ∙ cancelled_self name p l in
    let back = activate-eq name off u disabled refl in
    let enabled = set_disabled name off false u in
    (
      disabled,
      λ c.
          ap (λ u. get u.plugin_tasks (task_key name c)) eq
          ∙ cancelled-tasks name (task_key name c) (set_disabled name p true l)
          ∙ if_true _ _ _ (own_prefixed name c),
      ap (λ v. get v.plugins name) back
          ∙ ap (λ ps. get ps name) (start_tasks-plugins name (all_consumes off) enabled)
          ∙ get-put_self u.plugins name (record off { disabled = false })
          ∙ ap (λ b. some (record p { disabled = b })) (sym d),
      subst (λ v. All (HasTask name v) (all_consumes p)) (sym back)
          (start_tasks-HasTask name (all_consumes off) enabled),
    )
