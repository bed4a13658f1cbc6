-- ===== src/Findings/History.antt =====
-- The triage columns of a finding and the history of its triage.
use pwnproxy.Prelude.{
  arith, ℕ, not, Option, none, some, List, [], ◌∷◌, ◌++◌, keep_if, length, drop, drop-append,
  length-append, ◌≤◌, ◌==◌, nat_eq, nat_beq_iff, if◌then◌else◌, if_true, if_false, Option-cases,
  Bool-cases, ◌≡◌, refl, sym, ap, ◌∙◌, subst, inl, inr,
}
use pwnproxy.Findings.{
  Finding, FindingRow, TriageHistory, Db, Triage, new_row, save, find_row, get, triaged,
  update_rows, history_row, set_triage, delete, empty_db,
}

module _ {S : Type 0} where
  -- the last entry about a finding
  unfoldable pub latest : List (TriageHistory S) → ℕ → Option (TriageHistory S)
  latest [] id = none
  latest (h ∷ hs) id = elim (latest hs id) [
    | some g ↦ some g
    | none ↦ if h.finding_id == id then some h else none
  ]

  latest-append :
      (j : ℕ) (hs : List (TriageHistory S)) (h : TriageHistory S)
      → latest (hs ++ h ∷ []) j ≡ (if h.finding_id == j then some h else latest hs j)
  unfolding latest
  latest-append j [] h = refl
  latest-append j (g ∷ hs) h = ground (arith, latest-append j hs h)

  latest-none : (j : ℕ) (hs : List (TriageHistory S)) → latest (drop (length hs) hs) j ≡ none
  unfolding latest
  latest-none j [] = refl
  latest-none j (h ∷ hs) = latest-none j hs

  -- the entries about `j` after one more
  latest-snoc :
      (n j : ℕ) (hs : List (TriageHistory S)) (h : TriageHistory S)
      → n ≤ length hs
      → latest (drop n (hs ++ h ∷ [])) j
        ≡ (if h.finding_id == j then some h else latest (drop n hs) j)
  latest-snoc n j hs h le =
      ap (λ l. latest l j) (drop-append {0} n hs (h ∷ []) le) ∙ latest-append j (drop n hs) h

module _ {S F : Type 0} where
  find_row-update :
      (id j : ℕ) (t : Triage S F) (rows : List (FindingRow S F)) (row : FindingRow S F)
      → find_row rows id ≡ some row
      → find_row (update_rows id t rows) j
        ≡ (if id == j then some (triaged t row) else find_row rows j)
  unfolding find_row update_rows triaged
  find_row-update id j t [] row h = ground arith
  find_row-update id j t (r ∷ rows) row h = elim (Bool-cases (r.id == id)) [
    | inl e ↦
        let first : some r ≡ some row = ground arith in
        ground (arith, nat_beq_iff r.id id, nat_beq_iff id j, nat_beq_iff r.id j, first)
    | inr n ↦
        let ih = find_row-update id j t rows row (ground arith) in
        ground (arith, nat_beq_iff r.id id, nat_beq_iff id j, nat_beq_iff r.id j, ih)
  ]

  -- Triage of a present finding: what is found afterwards, at every id.
  pub get-set_triage :
      (id j : ℕ) (t : Triage S F) (db : Db S F) (row : FindingRow S F)
      → get db id ≡ some row
      → get (set_triage id t db).1 j ≡ (if id == j then some (triaged t row) else get db j)
  unfolding get set_triage
  get-set_triage id j t db row g = rw (g, set_triage) (find_row-update id j t db.findings row g)

  find_row-append :
      (j : ℕ) (rows : List (FindingRow S F)) (row : FindingRow S F)
      → find_row rows row.id ≡ none
      → find_row (rows ++ row ∷ []) j ≡ (if row.id == j then some row else find_row rows j)
  unfolding find_row
  find_row-append j [] row h = refl
  find_row-append j (r ∷ rows) row h = elim (Bool-cases (r.id == row.id)) [
    | inl e ↦ absurd (ground arith)
    | inr n ↦
        let ih = find_row-append j rows row (ground arith) in
        ground (arith, nat_beq_iff r.id row.id, nat_beq_iff row.id j, nat_beq_iff r.id j, ih)
  ]

  find_row-without :
      (id j : ℕ) (rows : List (FindingRow S F))
      → find_row (keep_if (λ r. not (r.id == id)) rows) j
        ≡ (if id == j then none else find_row rows j)
  unfolding find_row
  find_row-without id j [] = ground arith
  find_row-without id j (r ∷ rows) =
      ground (
        arith,
        nat_beq_iff r.id id,
        nat_beq_iff id j,
        nat_beq_iff r.id j,
        find_row-without id j rows,
      )

  -- the columns of a row are those of an entry, or were never written
  abbrev pub Agrees : Option (TriageHistory S) → FindingRow S F → Type 0
  Agrees none row =
      (row.triage_verdict ≡ none)
      × (row.triage_method ≡ none)
      × (row.triage_score ≡ none)
      × (row.triage_reason ≡ none)
  Agrees (some h) row =
      (row.triage_verdict ≡ some h.verdict)
      × (row.triage_method ≡ some h.method)
      × (row.triage_score ≡ h.score)
      × (row.triage_reason ≡ h.reason)

  -- where `born j` is how long the history was when the row `j` was saved
  abbrev pub IsAudited : (ℕ → ℕ) → Db S F → Type 0
  IsAudited born db =
      ((j : ℕ) → born j ≤ length db.history)
      × ((j : ℕ) (row : FindingRow S F)
          → get db j ≡ some row
          → Agrees (latest (drop (born j) db.history) j) row)

-- the row `id` is saved now
abbrev pub saved_at : ℕ → ℕ → (ℕ → ℕ) → ℕ → ℕ
saved_at id now born j = if id == j then now else born j

-- Any writes of the storage, with the length of the history at the save of each row. The database
-- gives a new row an id that no row has; it may be that of a deleted row.
pub data Changes (S F : Type 0) : (ℕ → ℕ) → Db S F → Type 0 where
  none_made : Changes S F (λ _. 0) (empty_db S F)
  saves :
      (born : ℕ → ℕ) (id : ℕ) (f : Finding F) (db : Db S F)
      → get db id ≡ none
      → Changes S F born db
      → Changes S F (saved_at id (length db.history) born) (save id f db)
  triages :
      (born : ℕ → ℕ) (id : ℕ) (t : Triage S F) (db : Db S F)
      → Changes S F born db
      → Changes S F born (set_triage id t db).1
  deletes :
      (born : ℕ → ℕ) (id : ℕ) (db : Db S F)
      → Changes S F born db
      → Changes S F born (delete id db).1

some-eq : {A : Type 0} {x y : A} → some x ≡ some y → x ≡ y
some-eq {A} {x} e = ap (λ o. elim o [ some z ↦ z | none ↦ x ]) e

none-some : {A : Type 0} {x : A} → none ≡ some x → ⊥
none-some e = ground arith

module _ {S F : Type 0} where
  triaged-Agrees :
      (id : ℕ) (t : Triage S F) (row : FindingRow S F)
      → Agrees (some (history_row id t)) (triaged t row)
  unfolding triaged history_row
  triaged-Agrees id t row = (refl, refl, refl, refl)

  save-IsAudited :
      (born : ℕ → ℕ) (id : ℕ) (f : Finding F) (db : Db S F)
      → get db id ≡ none
      → IsAudited born db
      → IsAudited (saved_at id (length db.history) born) (save id f db)
  unfolding save get new_row
  save-IsAudited born id f db n (short, a) = (
    λ j. ground (arith, short j),
    λ j row h.
        let found = find_row-append j db.findings (new_row id f) n in
        let since = λ (k : ℕ). Agrees (latest (drop k db.history) j) row in
        elim (Bool-cases (id == j)) [
          | inl e ↦
              let mine : some (new_row id f) ≡ some row =
                sym (if_true (id == j) (some (new_row id f)) (find_row db.findings j) e)
                ∙ sym found
                ∙ h in
              subst since (sym (if_true (id == j) (length db.history) (born j) e)) (
                subst (λ o. Agrees o row) (sym (latest-none j db.history))
                  (subst (Agrees none) (some-eq mine) (refl, refl, refl, refl)))
          | inr d ↦ subst since (sym (if_false (id == j) (length db.history) (born j) d)) (
              a j row (
                sym (if_false (id == j) (some (new_row id f)) (find_row db.findings j) d)
                ∙ sym found
                ∙ h))
        ],
  )

  update-IsAudited :
      (born : ℕ → ℕ) (id : ℕ) (t : Triage S F) (db : Db S F) (old : FindingRow S F)
      → get db id ≡ some old
      → IsAudited born db
      → IsAudited born (record db {
        findings = update_rows id t db.findings;
        history = db.history ++ history_row id t ∷ [];
      })
  unfolding get history_row
  update-IsAudited born id t db old g (short, a) = (
    λ j. omega (arith, short j, length-append {0} db.history (history_row id t ∷ [])),
    λ j row h.
        let found = find_row-update id j t db.findings old g in
        let before = find_row db.findings j in
        let entries = latest-snoc (born j) j db.history (history_row id t) (short j) in
        subst (λ o. Agrees o row) (sym entries)
          (elim (Bool-cases (id == j)) [
            | inl e ↦
                let mine : some (triaged t old) ≡ some row =
                  sym (if_true (id == j) (some (triaged t old)) before e) ∙ sym found ∙ h in
                subst (λ o. Agrees o row) (sym (if_true (id == j) (some (history_row id t)) _ e))
                  (subst (Agrees (some (history_row id t))) (some-eq mine)
                    (triaged-Agrees id t old))
            | inr d ↦
                subst (λ o. Agrees o row) (sym (if_false (id == j) (some (history_row id t)) _ d))
                  (a j row
                    (sym (if_false (id == j) (some (triaged t old)) before d) ∙ sym found ∙ h))
          ]),
  )

  set_triage-IsAudited :
      (born : ℕ → ℕ) (id : ℕ) (t : Triage S F) (db : Db S F)
      → IsAudited born db
      → IsAudited born (set_triage id t db).1
  unfolding set_triage
  set_triage-IsAudited born id t db a = elim (Option-cases (get db id)) [
    | inl n ↦ subst (IsAudited born) (sym (rw (n, set_triage) refl)) a
    | inr (old, g) ↦ rw (g, set_triage) (update-IsAudited born id t db old g a)
  ]

  without-IsAudited :
      (born : ℕ → ℕ) (id : ℕ) (db : Db S F)
      → IsAudited born db
      → IsAudited born (record db { findings = keep_if (λ r. not (r.id == id)) db.findings })
  unfolding get
  without-IsAudited born id db (short, a) = (
    short,
    λ j row h.
        let found = find_row-without id j db.findings in
        elim (Bool-cases (id == j)) [
          | inl e ↦
              absurd (
                none-some (sym (if_true (id == j) none (find_row db.findings j) e) ∙ sym found ∙ h))
          | inr d ↦
              a j row (sym (if_false (id == j) none (find_row db.findings j) d) ∙ sym found ∙ h)
        ],
  )

  delete-IsAudited :
      (born : ℕ → ℕ) (id : ℕ) (db : Db S F) → IsAudited born db → IsAudited born (delete id db).1
  unfolding delete
  delete-IsAudited born id db a = elim (Option-cases (get db id)) [
    | inl n ↦ subst (IsAudited born) (sym (rw (n, delete) refl)) a
    | inr (old, g) ↦ rw (g, delete) (without-IsAudited born id db a)
  ]

  empty-IsAudited : IsAudited (λ _. 0) (empty_db S F)
  unfolding get find_row
  empty-IsAudited = (λ j. omega arith, λ j row h. absurd (none-some h))

  -- After any saves, triages and deletions, where a new row takes any id that no row has, be it that
  -- of a deleted row: the triage columns of every row are those of the last entry about its id that
  -- the history was given since the row was saved, and are empty where there is no such entry.
  pub Changes-IsAudited : {born : ℕ → ℕ} {db : Db S F} → Changes S F born db → IsAudited born db
  Changes-IsAudited none_made = empty-IsAudited
  Changes-IsAudited (saves born id f db n c) = save-IsAudited born id f db n (Changes-IsAudited c)
  Changes-IsAudited (triages born id t db c) =
      set_triage-IsAudited born id t db (Changes-IsAudited c)
  Changes-IsAudited (deletes born id db c) = delete-IsAudited born id db (Changes-IsAudited c)
