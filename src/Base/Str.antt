-- ===== src/Base/Str.antt =====
-- Rust strings as lists of code points, with the methods of `str` that the program calls.
use Prim.Native.Nat.{ℕ, ◌+◌}
use Prim.Native.Char.{code}
use Prim.Native.String.{String}
use mathlib.Core.Path.{◌≡◌, refl}
use mathlib.Core.Logic.{◌↔◌}
use mathlib.Core.Bool.{Bool, true, false, ◌&&◌, ◌||◌}
use mathlib.Core.Option.{Option, none, some}
use mathlib.Core.List.{List, [], ◌∷◌, reverse}
use native.Mathlib.Omega.{arith}
use rawdb.Base.Tests.{ltb, leb, eqb, if◌then◌else◌}

abbrev pub Text : Type 0
Text = List ℕ

-- a literal
abbrev pub codes : String → Text
codes String.[] = []
codes (String.◌∷◌ c s) = code c ∷ codes s

-- `a == b` on strings
infix 50 ◌==◌
unfoldable pub ◌==◌ : Text → Text → Bool
[] == [] = true
[] == (d ∷ t) = false
(c ∷ s) == [] = false
(c ∷ s) == (d ∷ t) = eqb c d && s == t

pub eq_refl : (s : Text) → (s == s) ≡ true
unfolding ◌==◌
eq_refl [] = refl
eq_refl (c ∷ s) = ground (arith, eq_refl s)

pub eq_sound : (s t : Text) → (s == t) ≡ true → s ≡ t
unfolding ◌==◌
eq_sound [] [] h = refl
eq_sound [] (d ∷ t) h = cc
eq_sound (c ∷ s) [] h = cc
eq_sound (c ∷ s) (d ∷ t) h = ground (arith, eq_sound s t)

pub eq_iff : (s t : Text) → ((s == t) ≡ true) ↔ (s ≡ t)
eq_iff s t = (eq_sound s t, λ e. rw e (eq_refl t))

-- `s.is_empty()`
abbrev pub is_empty : Text → Bool
is_empty [] = true
is_empty (c ∷ s) = false

-- `strip_prefix`
unfoldable pub strip_prefix : Text → Text → Option Text
strip_prefix [] s = some s
strip_prefix (p ∷ ps) [] = none
strip_prefix (p ∷ ps) (c ∷ s) = if eqb p c then strip_prefix ps s else none

-- `starts_with` on one character
abbrev pub starts_with : ℕ → Text → Bool
starts_with x [] = false
starts_with x (c ∷ s) = eqb c x

-- `contains` on one character
unfoldable pub contains : ℕ → Text → Bool
contains x [] = false
contains x (c ∷ s) = eqb c x || contains x s

-- `contains("..")`
unfoldable pub contains_dotdot : Text → Bool
contains_dotdot [] = false
contains_dotdot (c ∷ s) = (eqb c b'.' && starts_with b'.' s) || contains_dotdot s

-- `char::is_whitespace`: the Unicode property White_Space
unfoldable pub is_whitespace : ℕ → Bool
is_whitespace c =
    (leb 9 c && leb c 13)
    || eqb c 32
    || eqb c 0x85
    || eqb c 0xa0
    || eqb c 0x1680
    || (leb 0x2000 c && leb c 0x200a)
    || eqb c 0x2028
    || eqb c 0x2029
    || eqb c 0x202f
    || eqb c 0x205f
    || eqb c 0x3000

unfoldable pub trim_start : Text → Text
trim_start [] = []
trim_start (c ∷ s) = if is_whitespace c then trim_start s else c ∷ s

-- `trim`
unfoldable pub trim : Text → Text
unfolding trim_start is_whitespace
trim s = reverse (trim_start (reverse (trim_start s)))

abbrev pub to_head : ℕ → List Text → List Text
to_head c [] = (c ∷ []) ∷ []
to_head c (seg ∷ segs) = (c ∷ seg) ∷ segs

-- `split(x)`: one piece more than there are separators
unfoldable pub split : ℕ → Text → List Text
split x [] = [] ∷ []
split x (c ∷ s) = let rest = split x s in if eqb c x then [] ∷ rest else to_head c rest

-- `split_once(x)`: around the first separator
unfoldable pub split_once : ℕ → Text → Option (Text × Text)
split_once x [] = none
split_once x (c ∷ s) =
    let rest = split_once x s in
    if eqb c x then some ([], s) else elim rest [ none ↦ none | some (a, b) ↦ some (c ∷ a, b) ]

-- `rsplit_once(x)`: around the last separator
unfoldable pub rsplit_once : ℕ → Text → Option (Text × Text)
rsplit_once x [] = none
rsplit_once x (c ∷ s) = elim (rsplit_once x s) [
  | some (a, b) ↦ some (c ∷ a, b)
  | none ↦ if eqb c x then some ([], s) else none
]

-- `rsplit(x).next()`: what stands after the last separator
unfoldable pub rsplit_next : ℕ → Text → Text
unfolding rsplit_once
rsplit_next x s = elim (rsplit_once x s) [ none ↦ s | some (a, b) ↦ b ]

-- `split(x).next()`: what stands before the first separator
unfoldable pub split_next : ℕ → Text → Text
split_next x [] = []
split_next x (c ∷ s) = let rest = split_next x s in if eqb c x then [] else c ∷ rest

abbrev lower : ℕ → ℕ
lower c = if leb b'A' c && leb c b'Z' then c + 32 else c

-- `to_ascii_lowercase`
unfoldable pub to_ascii_lowercase : Text → Text
to_ascii_lowercase [] = []
to_ascii_lowercase (c ∷ s) = lower c ∷ to_ascii_lowercase s

-- `eq_ignore_ascii_case`
unfoldable pub eq_ignore_ascii_case : Text → Text → Bool
unfolding to_ascii_lowercase ◌==◌
eq_ignore_ascii_case s t = to_ascii_lowercase s == to_ascii_lowercase t

-- the bytes of a code point in UTF-8
abbrev utf8_width : ℕ → ℕ
utf8_width c = if ltb c 0x80 then 1 else if ltb c 0x800 then 2 else if ltb c 0x10000 then 3 else 4

-- `str::len`, in bytes
unfoldable pub len : Text → ℕ
len [] = 0
len (c ∷ s) = utf8_width c + len s
