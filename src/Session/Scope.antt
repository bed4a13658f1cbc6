-- ===== src/Session/Scope.antt =====
-- pwnproxy/services/session/manager.py, ScopeConfig. `urlparse` and `fnmatch` are Python's own, and
-- parameters here. The object that the constructor reads is what it may hold of the three keys; the
-- warning about an enabled scope without patterns is a log line.
use pwnproxy.Prelude.{
  String, Bool, true, false, not, ◌&&◌, Option, none, some, List, [], ◌∷◌, any_of, if◌then◌else◌,
  ◌≡◌, refl,
}
use text.Mathlib.Text.{starts_with}

pub record Urls : Type 0 where
  pub netloc : String → String
  pub hostname : String → Option String
  pub path : String → String
  pub fnmatch : String → String → Bool

pub record ScopeData : Type 0 where
  pub in_scope : Option (List String)
  pub out_of_scope : Option (List String)
  pub enabled : Option Bool

pub record ScopeConfig : Type 0 where
  pub in_scope : List String
  pub out_of_scope : List String
  pub enabled : Bool

abbrev pub has_patterns : List String → Bool
has_patterns [] = false
has_patterns (_ ∷ _) = true

abbrev pub or_else : {A : Type 0} → Option A → A → A
or_else none a = a
or_else (some a) _ = a

-- the constructor, on `data or {}`
unfoldable pub new_scope : ScopeData → ScopeConfig
new_scope d = record {
  in_scope = or_else d.in_scope [];
  out_of_scope = or_else d.out_of_scope [];
  enabled = or_else d.enabled (has_patterns (or_else d.in_scope []));
}

abbrev pub no_data : ScopeData
no_data = record { in_scope = none; out_of_scope = none; enabled = none }

unfoldable pub to_dict : ScopeConfig → ScopeData
to_dict c = record {
  in_scope = some c.in_scope;
  out_of_scope = some c.out_of_scope;
  enabled = some c.enabled;
}

-- `s[2:]`
abbrev pub drop_two : String → String
drop_two (String.◌∷◌ a (String.◌∷◌ b s)) = s
drop_two s = String.[]

module _ (urls : Urls) where
  -- `ScopeConfig._match`
  unfoldable pub matches : String → String → Bool
  matches pattern target =
      if urls.fnmatch target pattern
      then true
      else (starts_with pattern "*." && urls.fnmatch target (drop_two pattern))

  -- `ScopeConfig._candidates`
  unfoldable pub candidates : String → List String
  candidates url = urls.netloc url ∷ or_else (urls.hostname url) "" ∷ url ∷ []

  -- a pattern of the list that matches a candidate
  unfoldable pub any_match : List String → String → Bool
  any_match patterns url = any_of (λ p. any_of (matches p) (candidates url)) patterns

  unfoldable pub is_in_scope : ScopeConfig → String → Bool
  is_in_scope c url =
      if not c.enabled
      then true
      else if not (has_patterns c.in_scope)
      then true
      else if any_match c.out_of_scope url
      then false
      else any_match c.in_scope url

-- A scope read back from its own serialization is the same.
pub new_scope-to_dict : (c : ScopeConfig) → new_scope (to_dict c) ≡ c
unfolding new_scope to_dict
new_scope-to_dict c = refl
