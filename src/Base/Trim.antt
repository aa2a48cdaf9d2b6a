-- ===== src/Base/Trim.antt =====
-- `trim` leaves nothing exactly of a text of white space.
use mathlib.Core.Path.{◌≡◌, refl, sym, subst, ◌∙◌}
use mathlib.Core.Logic.{◌≢◌, ◌↔◌, inl, inr}
use mathlib.Core.Bool.{true, false}
use mathlib.Core.List.{[], ◌∷◌, ◌++◌, reverse, reverse-cons}
use Prim.Native.Nat.{ℕ}
use rawdb.Base.Tests.{Bool-cases}
use rawdb.Base.Lists.{Any}
use rawdb.Base.Str.{Text, trim, trim_start, is_whitespace, is_empty}

-- some character is not white space
abbrev pub HasText : Text → Type 0
HasText s = Any (λ c. is_whitespace c ≡ false) s

trim_start-snoc : (v : Text) (c : ℕ) → is_whitespace c ≡ false → trim_start (v ++ c ∷ []) ≢ []
unfolding trim_start
trim_start-snoc [] c h = rw h (λ e. cc)
trim_start-snoc (d ∷ v) c h = elim (Bool-cases (is_whitespace d)) [
  | inl e ↦ rw e (trim_start-snoc v c h)
  | inr e ↦ rw e (λ e. cc)
]

reverse-ne-nil : (s : Text) → s ≢ [] → reverse s ≢ []
reverse-ne-nil [] h e = h refl
reverse-ne-nil (c ∷ s) h e = go (reverse s) (sym (reverse-cons c s) ∙ e)
  where
    go : (v : Text) → v ++ c ∷ [] ≡ [] → ⊥
    go [] p = cc
    go (d ∷ v) p = cc

trim_of_HasText : (s : Text) → HasText s → trim s ≢ []
unfolding trim trim_start
trim_of_HasText [] h = absurd h
trim_of_HasText (c ∷ s) h = elim (Bool-cases (is_whitespace c)) [
  | inl e ↦ rw e (trim_of_HasText s (later e h))
  | inr e ↦ rw e (
      reverse-ne-nil (trim_start (reverse (c ∷ s)))
        (subst (λ t. trim_start t ≢ []) (sym (reverse-cons c s)) (trim_start-snoc (reverse s) c e)))
]
  where
    later : is_whitespace c ≡ true → HasText (c ∷ s) → HasText s
    later e (inl n) = cc
    later e (inr r) = r

HasText-of_trim : (s : Text) → trim s ≢ [] → HasText s
unfolding trim trim_start
HasText-of_trim [] h = absurd (h refl)
HasText-of_trim (c ∷ s) h = elim (Bool-cases (is_whitespace c)) [
  | inl e ↦ inr (HasText-of_trim s (rw e at h))
  | inr e ↦ inl e
]

is_empty_iff : (s : Text) → (is_empty s ≡ false) ↔ (s ≢ [])
is_empty_iff [] = (λ e. cc, λ h. absurd (h refl))
is_empty_iff (c ∷ s) = (λ e p. cc, λ h. refl)

-- `!s.trim().is_empty()`
pub trim_iff : (s : Text) → (is_empty (trim s) ≡ false) ↔ HasText s
trim_iff s = (
  λ e. HasText-of_trim s ((is_empty_iff (trim s)).0 e),
  λ h. (is_empty_iff (trim s)).1 (trim_of_HasText s h),
)
