-- ===== src/Base/Split.antt =====
-- Laws of `split`, `trim` and `contains` on texts.
use mathlib.Core.Path.{◌≡◌, refl, ap}
use mathlib.Core.Logic.{◌≢◌, ◌↔◌, inl, inr}
use mathlib.Core.Bool.{Bool, true, false, ◌||◌}
use mathlib.Core.List.{List, [], ◌∷◌, ◌++◌}
use Prim.Native.Nat.{ℕ, ◌≤◌}
use native.Mathlib.Omega.{arith}
use rawdb.Base.Tests.{eqb, Bool-cases, if◌then◌else◌}
use rawdb.Base.Lists.{length, any, All}
use rawdb.Base.Str.{Text, split, to_head, contains}

-- no character of the text is `x`
abbrev pub Lacks : ℕ → Text → Type 0
Lacks x s = All (λ c. c ≢ x) s

-- pieces put together again around a separator
abbrev pub join : ℕ → List Text → Text
join x [] = []
join x (a ∷ []) = a
join x (a ∷ b ∷ r) = a ++ x ∷ join x (b ∷ r)

join-to_head : (x c : ℕ) (segs : List Text) → join x (to_head c segs) ≡ c ∷ join x segs
join-to_head x c [] = refl
join-to_head x c (a ∷ []) = refl
join-to_head x c (a ∷ b ∷ r) = refl

join-nil_cons : (x : ℕ) (s : Text) → join x ([] ∷ split x s) ≡ x ∷ join x (split x s)
unfolding split
join-nil_cons x [] = refl
join-nil_cons x (c ∷ s) = go (split x s) (eqb c x)
  where
    go :
        (segs : List Text) (b : Bool)
        → join x ([] ∷ (if b then [] ∷ segs else to_head c segs))
          ≡ x ∷ join x (if b then [] ∷ segs else to_head c segs)
    go segs true = refl
    go [] false = refl
    go (a ∷ r) false = refl

pub join-split : (x : ℕ) (s : Text) → join x (split x s) ≡ s
unfolding split
join-split x [] = refl
join-split x (c ∷ s) = elim (Bool-cases (eqb c x)) [
  | inl e ↦ rw e (rw (join-nil_cons x s) (ground (arith, join-split x s)))
  | inr e ↦ rw e (rw (join-to_head x c (split x s)) (ap (λ t. c ∷ t) (join-split x s)))
]

pub split-Lacks : (x : ℕ) (s : Text) → All (Lacks x) (split x s)
unfolding split
split-Lacks x [] = (tt, tt)
split-Lacks x (c ∷ s) = go (split x s) (split-Lacks x s)
  where
    go :
        (segs : List Text)
        → All (Lacks x) segs
        → All (Lacks x) (if eqb c x then [] ∷ segs else to_head c segs)
    go [] h = ground arith
    go (a ∷ r) h = ground arith

split_of_Lacks : (x : ℕ) (s : Text) → Lacks x s → split x s ≡ s ∷ []
unfolding split
split_of_Lacks x [] h = refl
split_of_Lacks x (c ∷ s) h = rw (split_of_Lacks x s h.1) (ground arith)

split-append_cons : (x : ℕ) (a s : Text) → Lacks x a → split x (a ++ x ∷ s) ≡ a ∷ split x s
unfolding split
split-append_cons x [] s h = ground arith
split-append_cons x (c ∷ a) s h = rw (split-append_cons x a s h.1) (ground arith)

-- Splitting gives back the pieces, of which none holds the separator.
pub split-join :
    (x : ℕ) (a : Text) (r : List Text) → All (Lacks x) (a ∷ r) → split x (join x (a ∷ r)) ≡ a ∷ r
split-join x a [] h = split_of_Lacks x a h.0
split-join x a (b ∷ r) h =
    rw (split-append_cons x a (join x (b ∷ r)) h.0) (ap (λ t. a ∷ t) (split-join x b r h.1))

-- The separator occurs exactly if there are two pieces at least.
pub contains_iff_split : (x : ℕ) (s : Text) → (contains x s ≡ true) ↔ (2 ≤ length (split x s))
unfolding contains split
contains_iff_split x [] = (λ e. cc, λ h. absurd (omega arith))
contains_iff_split x (c ∷ s) = go (split x s) (contains_iff_split x s) (nonempty s)
  where
    nonempty : (t : Text) → 1 ≤ length (split x t)
    nonempty [] = omega arith
    nonempty (d ∷ t) = elim (Bool-cases (eqb d x)) [
      | inl e ↦ rw e (omega arith)
      | inr e ↦ rw e (heads d (split x t))
    ]
      where
        heads : (d : ℕ) (segs : List Text) → 1 ≤ length (to_head d segs)
        heads d [] = omega arith
        heads d (a ∷ r) = omega arith

    go :
        (segs : List Text)
        → (contains x s ≡ true) ↔ (2 ≤ length segs)
        → 1 ≤ length segs
        → ((eqb c x || contains x s) ≡ true)
          ↔ (2 ≤ length (if eqb c x then [] ∷ segs else to_head c segs))
    go [] h k = absurd (omega arith)
    go (a ∷ r) h k = (λ e. ground (arith, h.0), λ e. ground (arith, h.1))

pub any-false-All {ℓ κ} :
    {A : Type ℓ} (p : A → Bool) (Q : A → Type κ) (xs : List A)
    → ((a : A) → p a ≡ false → Q a)
    → any p xs ≡ false
    → All Q xs
unfolding any
any-false-All p Q [] f h = tt
any-false-All p Q (x ∷ xs) f h = (f x (ground arith), any-false-All p Q xs f (ground arith))

pub All-any-false {ℓ κ} :
    {A : Type ℓ} (p : A → Bool) (Q : A → Type κ) (xs : List A)
    → ((a : A) → Q a → p a ≡ false)
    → All Q xs
    → any p xs ≡ false
unfolding any
All-any-false p Q [] f h = refl
All-any-false p Q (x ∷ xs) f h = rw (f x h.0) (All-any-false p Q xs f h.1)
