-- ===== src/Canary/Callbacks.antt =====
-- Which callbacks count, and what a cleanup leaves.
use pwnproxy.Prelude.{
  ℕ, ◌≡◌, ◌↔◌, refl, ap, String, Bool, true, false, Option, none, some, Option-cases, inl, inr,
  List, [], ◌∷◌, any_of, arith, ◌==◌, ==_refl, string_eq, if◌then◌else◌,
}
use pwnproxy.Dict.{Dict, put, remove, get-put, get-remove}
use pwnproxy.Dict
use pwnproxy.Canary.{
  CanaryToken, CanaryRegistry, is_expired, or_empty, received, mark_callback, expired_tokens,
  delete_each, cleanup_expired,
}

-- `d` is `c` with a callback of that time, address and headers
abbrev pub HasCallback :
    ℕ → String → Option (Dict String String) → CanaryToken → CanaryToken → Type 0
HasCallback now ip headers c d =
    (d.callback_received ≡ true)
    × (d.callback_ip ≡ some ip)
    × (d.callback_at ≡ some now)
    × ((hs : Dict String String) → headers ≡ some hs → d.callback_headers ≡ hs)
    × (headers ≡ none → d.callback_headers ≡ [])
    × (d.token ≡ c.token)
    × (d.scan_id ≡ c.scan_id)
    × (d.created_at ≡ c.created_at)

received-HasCallback :
    (now : ℕ) (ip : String) (headers : Option (Dict String String)) (c : CanaryToken)
    → HasCallback now ip headers c (received now ip headers c)
received-HasCallback now ip headers c =
    (refl, refl, refl, λ hs e. ap or_empty e, λ e. ap or_empty e, refl, refl, refl)

-- A callback is accepted exactly for a registered token that has not expired; the token's entry then
-- has the callback's time, address and headers (none given are an empty dict), and its token, scan
-- and creation time as before. A callback that is not accepted changes nothing, and no callback
-- changes another token.
pub mark_callback_iff :
    (now : ℕ) (token ip : String) (headers : Option (Dict String String)) (r : CanaryRegistry)
    → let after = mark_callback now token ip headers r in
      ((after.1 ≡ true)
        ↔ ((c : CanaryToken) × (Dict.get r token ≡ some c) × (is_expired now c ≡ false)))
      × ((c : CanaryToken)
          → Dict.get r token ≡ some c
          → after.1 ≡ true
          → (d : CanaryToken) × (Dict.get after.0 token ≡ some d) × HasCallback now ip headers c d)
      × (after.1 ≡ false → after.0 ≡ r)
      × ((j : String) → (token == j) ≡ false → Dict.get after.0 j ≡ Dict.get r j)
unfolding mark_callback
mark_callback_iff now token ip headers r = elim (Option-cases (Dict.get r token)) [
  | inl e ↦
      rw (e, mark_callback)
        (
          (λ h. absurd (ground arith), λ h. absurd (ground arith)),
          λ c h k. absurd (ground arith),
          λ h. refl,
          λ j h. refl,
        )
  | inr (c, e) ↦ (
    (λ h. (c, e, ground arith), λ h. ground (arith, h.1, h.2)),
    λ d f k. (
      received now ip headers d,
      ground (arith, get-put r token token (received now ip headers d), ==_refl token),
      received-HasCallback now ip headers d,
    ),
    λ h. ground arith,
    λ j h. ground (arith, get-put r token j (received now ip headers c)),
  )
]

gone : String → List String → Bool
gone token tokens = any_of (λ t. t == token) tokens

delete_each_lem :
    (tokens : List String) (r : CanaryRegistry) (j : String)
    → Dict.get (delete_each tokens r) j ≡ (if gone j tokens then none else Dict.get r j)
unfolding delete_each gone
delete_each_lem [] r j = refl
delete_each_lem (t ∷ tokens) r j =
    ground (arith, delete_each_lem tokens (remove r t) j, get-remove r t j)

expired_tokens_lem :
    (now : ℕ) (r : CanaryRegistry) (j : String) (c : CanaryToken)
    → Dict.get r j ≡ some c
    → is_expired now c ≡ true
    → gone j (expired_tokens now r) ≡ true
unfolding expired_tokens gone Dict.get
expired_tokens_lem now [] j c h e = cc h
expired_tokens_lem now ((t, d) ∷ r) j c h e = ground (arith, expired_tokens_lem now r j c)

-- What a cleanup leaves was there before it and has not expired.
pub cleanup_active :
    (now : ℕ) (r : CanaryRegistry) (j : String) (c : CanaryToken)
    → Dict.get (cleanup_expired now r).0 j ≡ some c
    → (Dict.get r j ≡ some c) × (is_expired now c ≡ false)
unfolding cleanup_expired
cleanup_active now r j c h =
    ground (arith, delete_each_lem (expired_tokens now r) r j, expired_tokens_lem now r j c)
