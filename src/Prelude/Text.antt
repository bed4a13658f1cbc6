-- ===== src/Prelude/Text.antt =====
-- Python's text functions: `lower` on ASCII letters and `strip` on ASCII white space, where other
-- characters stand for themselves; slices and joins.
use Prim.Native.Nat.{ℕ, zero, suc, ◌-◌}
use Prim.Native.Char.{Char, code}
use Prim.Native.String.{String, ◌++◌ as ◌<>◌}
use mathlib.Core.Bool.{Bool, true, false, ◌&&◌, ◌||◌}
use mathlib.Core.Option.{Option, none, some}
use text.Mathlib.Text.{find?}
use mathlib.Core.List.{List, [], ◌∷◌}
use pwnproxy.Prelude.Tests.{leb, nat_beq, if◌then◌else◌}

nth_or : String → ℕ → Char → Char
nth_or String.[] i d = d
nth_or (String.◌∷◌ c s) zero d = c
nth_or (String.◌∷◌ c s) (suc i) d = nth_or s i d

unfoldable pub lower : String → String
unfolding nth_or
lower String.[] = String.[]
lower (String.◌∷◌ c s) =
    String.◌∷◌
      (if leb 65 (code c) && leb (code c) 90
        then nth_or "abcdefghijklmnopqrstuvwxyz" (code c - 65) c
        else c)
      (lower s)

-- `str.strip` on ASCII white space, the characters 9 to 13, 28 to 32
abbrev is_space : Char → Bool
is_space c = leb 9 (code c) && leb (code c) 13 || leb 28 (code c) && leb (code c) 32

unfoldable pub lstrip : String → String
lstrip String.[] = String.[]
lstrip (String.◌∷◌ c s) = let rest = lstrip s in if is_space c then rest else String.◌∷◌ c s

-- a character before a text that is stripped on the right
abbrev before_stripped : Char → String → String
before_stripped c String.[] = if is_space c then String.[] else String.◌∷◌ c String.[]
before_stripped c (String.◌∷◌ d s) = String.◌∷◌ c (String.◌∷◌ d s)

unfoldable pub rstrip : String → String
rstrip String.[] = String.[]
rstrip (String.◌∷◌ c s) = before_stripped c (rstrip s)

unfoldable pub strip : String → String
strip s = lstrip (rstrip s)

-- `s[:n]`
unfoldable pub take_chars : ℕ → String → String
take_chars zero s = String.[]
take_chars (suc n) String.[] = String.[]
take_chars (suc n) (String.◌∷◌ c s) = String.◌∷◌ c (take_chars n s)

-- `sep.join(texts)`
unfoldable pub join : String → List String → String
join sep [] = ""
join sep (s ∷ []) = s
join sep (s ∷ t ∷ rest) = s <> (sep <> join sep (t ∷ rest))

-- a character before the first part
abbrev before_parts : Char → List String → List String
before_parts c [] = String.◌∷◌ c String.[] ∷ []
before_parts c (p ∷ parts) = String.◌∷◌ c p ∷ parts

-- `s.split(c)`, for the character of this code
unfoldable pub split_at_each : ℕ → String → List String
split_at_each k String.[] = "" ∷ []
split_at_each k (String.◌∷◌ c s) =
    let parts = split_at_each k s in if nat_beq (code c) k then "" ∷ parts else before_parts c parts

-- `s.partition(c)` where the character of this code occurs
unfoldable pub partition_at : ℕ → String → Option (String × String)
partition_at k String.[] = none
partition_at k (String.◌∷◌ c s) =
    let later = partition_at k s in
    if nat_beq (code c) k
    then some ("", s)
    else (elim later [ none ↦ none | some (p, q) ↦ some (String.◌∷◌ c p, q) ])

-- `t in s`
abbrev pub contains : String → String → Bool
contains s t = elim (find? s t) [ none ↦ false | some _ ↦ true ]
