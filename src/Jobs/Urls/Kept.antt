-- ===== src/Jobs/Urls/Kept.antt =====
-- The rows that saves leave in the table, other writers included.
use pwnproxy.Prelude.{
  arith, ℕ, ◌+◌, ◌<◌, String, Bool, true, false, Bool-cases, ◌||◌, Option, none, some, List, [],
  ◌∷◌, ◌++◌, append-nil, append_assoc, All, All-append, ◌==◌, ==_iff, string_eq, if_true, if_false,
  ◌⊎◌, ◌≡◌, ◌≢◌, refl, sym, ap, ◌∙◌, subst, inl, inr,
}
use pwnproxy.Prelude.Distinct.{Distinct, Distinct-snoc}
use pwnproxy.Jobs.Urls.{UrlRow, Table, Discovery, row_of, present, insert, commit, save}

abbrev url_of : UrlRow → String
url_of r = r.url

abbrev pub IsValid : Table → Type 0
IsValid t = Distinct url_of t.rows × All (λ r. r.id < t.next_id) t.rows

or_false : (a b : Bool) → (a || b) ≡ false → (a ≡ false) × (b ≡ false)
or_false a b h = (ground arith, ground arith)

contradiction : ¬ (false ≡ true)
contradiction h = ground (arith, h)

absent :
    (url : String) (rows : List UrlRow) → present url rows ≡ false → All (λ r. url ≢ r.url) rows
absent url [] h = tt
absent url (r ∷ rows) h =
    let q = or_false (r.url == url) (present url rows) h in
    let same = ==_iff r.url url in
    (λ e. absurd (contradiction (sym q.0 ∙ same.1 (sym e))), absent url rows q.1)

present-snoc :
    (url : String) (rows : List UrlRow) (r : UrlRow)
    → url ≡ r.url
    → present url (rows ++ r ∷ []) ≡ true
present-snoc url [] r h = ap (λ b. b || false) ((==_iff r.url url).1 (sym h))
present-snoc url (q ∷ rows) r h = let rest = present-snoc url rows r h in ground (arith, rest)

present-append :
    (url : String) (rows more : List UrlRow)
    → present url rows ≡ true
    → present url (rows ++ more) ≡ true
present-append url [] more h = absurd (ground (arith, h))
present-append url (q ∷ rows) more h =
    let rest = present-append url rows more in
    elim (Bool-cases (q.url == url)) [
      | inl k ↦ ap (λ b. b || present url (rows ++ more)) k
      | inr k ↦
          ap (λ b. b || present url (rows ++ more)) k
          ∙ rest (sym (ap (λ b. b || present url rows) k) ∙ h)
    ]

weaken : (n : ℕ) (rows : List UrlRow) → All (λ r. r.id < n) rows → All (λ r. r.id < n + 1) rows
weaken n [] h = tt
weaken n (r ∷ rows) h = (omega (arith, h.0), weaken n rows h.1)

insert-IsValid :
    (d : Discovery) (t : Table) → present d.url t.rows ≡ false → IsValid t → IsValid (insert d t)
insert-IsValid d t h v = (
  Distinct-snoc url_of t.rows (row_of t.next_id d) v.0 (absent d.url t.rows h),
  All-append (λ r. r.id < t.next_id + 1) t.rows (row_of t.next_id d ∷ [])
      (weaken t.next_id t.rows v.1) (omega arith, tt),
)

-- the table keeps its rows, in their order, before any new ones
abbrev pub Keeps : Table → Table → Type 0
Keeps t u = (more : List UrlRow) × (u.rows ≡ t.rows ++ more)

Keeps-refl : (t : Table) → Keeps t t
Keeps-refl t = ([], sym (append-nil t.rows))

Keeps-trans : (t u v : Table) → Keeps t u → Keeps u v → Keeps t v
Keeps-trans t u v (m, h) (n, k) = (m ++ n, k ∙ ap (λ l. l ++ n) h ∙ append_assoc t.rows m n)

-- a commit does one of two things
commit-cases :
    (refused : Bool) (d : Discovery) (t : Table)
    → ((refused || present d.url t.rows) ≡ true) × (commit refused d t ≡ (t, none))
      ⊎ (present d.url t.rows ≡ false) × (commit refused d t ≡ (insert d t, some t.next_id))
unfolding commit
commit-cases refused d t = elim (Bool-cases (refused || present d.url t.rows)) [
  | inl h ↦
      inl (h, if_true (refused || present d.url t.rows) (t, none) (insert d t, some t.next_id) h)
  | inr h ↦ inr (
    (or_false refused (present d.url t.rows) h).1,
    if_false (refused || present d.url t.rows) (t, none) (insert d t, some t.next_id) h,
  )
]

commit-Keeps :
    (refused : Bool) (d : Discovery) (t : Table)
    → IsValid t
    → IsValid (commit refused d t).0 × Keeps t (commit refused d t).0
commit-Keeps refused d t v = elim (commit-cases refused d t) [
  | inl h ↦ subst (λ r. IsValid r.0 × Keeps t r.0) (sym h.1) (v, Keeps-refl t)
  | inr h ↦
      subst (λ r. IsValid r.0 × Keeps t r.0) (sym h.1)
        (insert-IsValid d t h.0 v, (row_of t.next_id d ∷ [], refl))
]

commit-stores : (d : Discovery) (t : Table) → present d.url (commit false d t).0.rows ≡ true
commit-stores d t = elim (commit-cases false d t) [
  | inl h ↦ subst (λ r. present d.url r.0.rows ≡ true) (sym h.1) h.0
  | inr h ↦
      subst (λ r. present d.url r.0.rows ≡ true) (sym h.1)
        (present-snoc d.url t.rows (row_of t.next_id d) refl)
]

-- what other writers can make of a table: any number of commits
pub data Writes : Table → Table → Type 0 where
  stays : (t : Table) → Writes t t
  commits :
      (refused : Bool) (d : Discovery) (t u : Table) → Writes t u → Writes t (commit refused d u).0

Writes-Keeps : (t u : Table) → Writes t u → IsValid t → IsValid u × Keeps t u
Writes-Keeps _ _ (stays t) v = (v, Keeps-refl t)
Writes-Keeps _ _ (commits refused d t u w) v =
    let before = Writes-Keeps t u w v in
    let now = commit-Keeps refused d u before.0 in
    (now.0, Keeps-trans t u (commit refused d u).0 before.1 now.1)

-- Whatever other writers commit between the query and the commit of a save, and whether or not the
-- database refuses the commit: from a table whose rows have different urls, and ids below the next
-- one, the save leads to another such table, which begins with all the rows of the first; and if the
-- commit is not refused, the url is in the table afterwards, whatever the save answers.
pub save-Keeps :
    (refused : Bool) (others : Table → Table) (d : Discovery) (t : Table)
    → ((u : Table) → Writes u (others u))
    → IsValid t
    → IsValid (save refused others d t).0
      × Keeps t (save refused others d t).0
      × (refused ≡ false → present d.url (save refused others d t).0.rows ≡ true)
unfolding save
save-Keeps refused others d t w v = elim (Bool-cases (present d.url t.rows)) [
  | inl h ↦
      subst Holds (sym (if_true (present d.url t.rows) (t, none) after h)) (v, Keeps-refl t, λ _. h)
  | inr h ↦ subst Holds (sym (if_false (present d.url t.rows) (t, none) after h)) (
    now.0,
    Keeps-trans t (others t) after.0 before.1 now.1,
    λ r.
        subst (λ b. present d.url (commit b d (others t)).0.rows ≡ true) (sym r)
          (commit-stores d (others t)),
  )
]
  where
    after : Table × Option ℕ
    after = commit refused d (others t)

    before : IsValid (others t) × Keeps t (others t)
    before = Writes-Keeps t (others t) (w t) v

    now : IsValid after.0 × Keeps (others t) after.0
    now = commit-Keeps refused d (others t) before.0

    Holds : Table × Option ℕ → Type 0
    Holds r = IsValid r.0 × Keeps t r.0 × (refused ≡ false → present d.url r.0.rows ≡ true)
