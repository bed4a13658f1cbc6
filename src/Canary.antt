-- ===== src/Canary.antt =====
-- pwnproxy/shared/canary.py: the registry of canary tokens. Times are seconds; the token that
-- `secrets` gives is an argument.
pub mod Callbacks
use pwnproxy.Prelude.{
  ℕ, ◌-◌, String, Bool, true, false, not, Option, none, some, List, [], ◌∷◌, length, ltb, string_eq,
  if◌then◌else◌,
}
use pwnproxy.Dict.{Dict, put, remove}
use pwnproxy.Dict

pub record CanaryToken : Type 0 where
  pub token : String
  pub scan_id : String
  pub created_at : ℕ
  pub callback_received : Bool
  pub callback_ip : Option String
  pub callback_headers : Dict String String
  pub callback_at : Option ℕ

abbrev pub CanaryRegistry : Type 0
CanaryRegistry = Dict String CanaryToken

unfoldable pub is_expired : ℕ → CanaryToken → Bool
is_expired now c = ltb 60 (now - c.created_at)

unfoldable pub create : ℕ → String → String → CanaryRegistry → CanaryRegistry
create now token scan_id r = put r token (record {
  token = token;
  scan_id = scan_id;
  created_at = now;
  callback_received = false;
  callback_ip = none;
  callback_headers = [];
  callback_at = none;
})

unfoldable pub get : String → CanaryRegistry → Option CanaryToken
get token r = Dict.get r token

abbrev pub or_empty : Option (Dict String String) → Dict String String
or_empty none = []
or_empty (some headers) = headers

abbrev pub received : ℕ → String → Option (Dict String String) → CanaryToken → CanaryToken
received now ip headers c = record c {
  callback_received = true;
  callback_ip = some ip;
  callback_headers = or_empty headers;
  callback_at = some now;
}

unfoldable pub mark_callback :
    ℕ → String → String → Option (Dict String String) → CanaryRegistry → CanaryRegistry × Bool
mark_callback now token ip headers r = elim (Dict.get r token) [
  | none ↦ (r, false)
  | some c ↦
      if is_expired now c then (r, false) else (put r token (received now ip headers c), true)
]

unfoldable pub expired_tokens : ℕ → CanaryRegistry → List String
expired_tokens now [] = []
expired_tokens now ((token, c) ∷ r) =
    let rest = expired_tokens now r in if is_expired now c then token ∷ rest else rest

unfoldable pub delete_each : List String → CanaryRegistry → CanaryRegistry
delete_each [] r = r
delete_each (token ∷ tokens) r = delete_each tokens (remove r token)

unfoldable pub cleanup_expired : ℕ → CanaryRegistry → CanaryRegistry × ℕ
cleanup_expired now r = (delete_each (expired_tokens now r) r, length (expired_tokens now r))

unfoldable pub list_active : ℕ → CanaryRegistry → List CanaryToken
list_active now [] = []
list_active now ((_, c) ∷ r) =
    let rest = list_active now r in if is_expired now c then rest else c ∷ rest
