-- ===== src/Scan/Params/Leaves.antt =====
-- The injection points of a JSON body against the scalars of the document.
use pwnproxy.Prelude.{
  ℕ, ◌+◌, String, Bool, true, false, List, [], ◌∷◌, ◌++◌, if◌then◌else◌, Bool-cases, ◌≡◌, refl, sym,
  ap, ◌∙◌, inl, inr,
}
use pwnproxy.Scan.Params.{
  Json, scalar, object, array, Members, no_member, member, Items, no_item, item, Parsers, key_under,
  index_under, extract_json_keys, extract_member, extract_members, extract_items,
}

-- a step into a document
pub data Step : Type 0 where
  at_key : String → Step
  at_index : ℕ → Step

-- every scalar of a document with its path, in order
unfoldable mutual
  pub leaves : List Step → Json → List (List Step × String)
  leaves p (scalar text) = (p, text) ∷ []
  leaves p (object members) = member_leaves p members
  leaves p (array items) = item_leaves p 0 items

  pub member_leaves : List Step → Members → List (List Step × String)
  member_leaves p no_member = []
  member_leaves p (member k v members) = leaves (at_key k ∷ p) v ++ member_leaves p members

  pub item_leaves : List Step → ℕ → Items → List (List Step × String)
  item_leaves p i no_item = []
  item_leaves p i (item v items) = leaves (at_index i ∷ p) v ++ item_leaves p (i + 1) items

abbrev pub ends_in_key : List Step → Bool
ends_in_key [] = false
ends_in_key (at_key k ∷ p) = true
ends_in_key (at_index i ∷ p) = false

module _ (parsers : Parsers) where
  -- a path as a name, such as `a.b[0].c`
  abbrev pub written : List Step → String
  written [] = ""
  written (at_key k ∷ p) = key_under parsers (written p) k
  written (at_index i ∷ p) = index_under parsers (written p) i

  -- the leaves that are members of an object
  unfoldable pub named : List (List Step × String) → List (String × String)
  named [] = []
  named ((p, text) ∷ ls) =
      let rest = named ls in if ends_in_key p then (written p, text) ∷ rest else rest

  named-append : (xs ys : List (List Step × String)) → named (xs ++ ys) ≡ named xs ++ named ys
  unfolding named
  named-append [] ys = refl
  named-append ((p, text) ∷ xs) ys = elim (Bool-cases (ends_in_key p)) [
    | inl e ↦ rw (e, named) (ap (λ zs. (written p, text) ∷ zs) (named-append xs ys))
    | inr e ↦ rw (e, named) (named-append xs ys)
  ]

  mutual
    unfolding named leaves member_leaves item_leaves extract_json_keys extract_member
        extract_members extract_items

    keys-named :
        (p : List Step) (v : Json)
        → ends_in_key p ≡ false
        → extract_json_keys parsers (written p) v ≡ named (leaves p v)
    keys-named p (scalar text) e = rw (e, named) refl
    keys-named p (object members) e = members-named p members
    keys-named p (array items) e = items-named p 0 items

    member-named :
        (p : List Step) (v : Json)
        → ends_in_key p ≡ true
        → extract_member parsers (written p) v ≡ named (leaves p v)
    member-named p (scalar text) e = rw (e, named) refl
    member-named p (object members) e = members-named p members
    member-named p (array items) e = items-named p 0 items

    members-named :
        (p : List Step) (members : Members)
        → extract_members parsers (written p) members ≡ named (member_leaves p members)
    members-named p no_member = refl
    members-named p (member k v members) =
        ap (λ xs. xs ++ extract_members parsers (written p) members)
          (member-named (at_key k ∷ p) v refl)
        ∙ ap (λ xs. named (leaves (at_key k ∷ p) v) ++ xs) (members-named p members)
        ∙ sym (named-append (leaves (at_key k ∷ p) v) (member_leaves p members))

    items-named :
        (p : List Step) (i : ℕ) (items : Items)
        → extract_items parsers (written p) i items ≡ named (item_leaves p i items)
    items-named p i no_item = refl
    items-named p i (item v items) =
        ap (λ xs. xs ++ extract_items parsers (written p) (i + 1) items)
          (keys-named (at_index i ∷ p) v refl)
        ∙ ap (λ xs. named (leaves (at_index i ∷ p) v) ++ xs) (items-named p (i + 1) items)
        ∙ sym (named-append (leaves (at_index i ∷ p) v) (item_leaves p (i + 1) items))

  pub extract_json_keys-leaves :
      (document : Json) → extract_json_keys parsers "" document ≡ named (leaves [] document)
  extract_json_keys-leaves document = keys-named [] document refl
