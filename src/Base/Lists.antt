-- ===== src/Base/Lists.antt =====
-- Lists measured by native numbers, and predicates on lists that compute.
use Prim.Native.Nat.{ℕ, suc, ◌+◌, ◌≤◌}
use mathlib.Core.Path.{◌≡◌, refl, subst}
use mathlib.Core.Logic.{◌⊎◌, ◌↔◌, inl, inr}
use mathlib.Core.Bool.{Bool, true, false, ◌&&◌, ◌||◌}
use mathlib.Core.Option.{Option, none, some}
use mathlib.Core.List.{List, [], ◌∷◌, ◌++◌}
use native.Mathlib.Omega.{arith}

module _ {ℓ} {A : Type ℓ} where
  abbrev pub length : List A → ℕ
  length [] = 0
  length (x ∷ xs) = suc (length xs)

  -- `iter().any(p)` and `iter().all(p)`
  unfoldable pub any : (A → Bool) → List A → Bool
  any p [] = false
  any p (x ∷ xs) = p x || any p xs

  unfoldable pub all : (A → Bool) → List A → Bool
  all p [] = true
  all p (x ∷ xs) = p x && all p xs

  -- `retain(p)`, `filter(p)`
  unfoldable pub retain : (A → Bool) → List A → List A
  retain p [] = []
  retain p (x ∷ xs) = let rest = retain p xs in elim (p x) [ true ↦ x ∷ rest | false ↦ rest ]

  -- `iter().find(p)`
  unfoldable pub find : (A → Bool) → List A → Option A
  find p [] = none
  find p (x ∷ xs) = elim (p x) [ true ↦ some x | false ↦ find p xs ]

  -- every element satisfies `P`
  abbrev pub All {κ} : (A → Type κ) → List A → Type κ
  All P [] = Unit
  All P (x ∷ xs) = P x × All P xs

  -- some element satisfies `P`
  abbrev pub Any : (A → Type 0) → List A → Type 0
  Any P [] = ⊥
  Any P (x ∷ xs) = P x ⊎ Any P xs

module _ {ℓ} {A : Type ℓ} where
  pub length-append : (xs ys : List A) → length (xs ++ ys) ≡ length xs + length ys
  length-append [] ys = omega arith
  length-append (x ∷ xs) ys = omega (arith, length-append xs ys)

  pub length-retain : (p : A → Bool) (xs : List A) → length (retain p xs) ≤ length xs
  unfolding retain
  length-retain p [] = omega arith
  length-retain p (x ∷ xs) = ground (arith, length-retain p xs)

  pub All-append {κ} : (P : A → Type κ) (xs ys : List A) → All P xs → All P ys → All P (xs ++ ys)
  All-append P [] ys h k = k
  All-append P (x ∷ xs) ys h k = (h.0, All-append P xs ys h.1 k)

  -- what holds of a list with `r` in it
  pub All-split {κ} :
      (P : A → Type κ) (xs ys zs : List A) (r : A)
      → zs ≡ xs ++ r ∷ ys
      → All P zs
      → All P xs × P r × All P ys
  All-split P xs ys zs r e h = go xs (subst (All P) e h)
    where
      go : (xs : List A) → All P (xs ++ r ∷ ys) → All P xs × P r × All P ys
      go [] a = (tt, a.0, a.1)
      go (x ∷ xs) a = let (l, m, n) = go xs a.1 in ((a.0, l), m, n)

  pub All-map {κ μ} :
      (P : A → Type κ) (Q : A → Type μ) (xs : List A) → ((x : A) → P x → Q x) → All P xs → All Q xs
  All-map P Q [] f h = tt
  All-map P Q (x ∷ xs) f h = (f x h.0, All-map P Q xs f h.1)

  pub Any-map : (P Q : A → Type 0) (xs : List A) → ((x : A) → P x → Q x) → Any P xs → Any Q xs
  Any-map P Q [] f h = h
  Any-map P Q (x ∷ xs) f (inl p) = inl (f x p)
  Any-map P Q (x ∷ xs) f (inr r) = inr (Any-map P Q xs f r)

  pub All-Any {κ} :
      (P : A → Type κ) (Q : A → Type 0) (xs : List A) → All P xs → Any Q xs → (x : A) × P x × Q x
  All-Any P Q [] h a = absurd a
  All-Any P Q (x ∷ xs) h (inl q) = (x, h.0, q)
  All-Any P Q (x ∷ xs) h (inr r) = All-Any P Q xs h.1 r

pub or_iff :
    {A B : Type 0} (a b : Bool) → (a ≡ true) ↔ A → (b ≡ true) ↔ B → ((a || b) ≡ true) ↔ (A ⊎ B)
or_iff true b h k = (λ e. inl (h.0 refl), λ x. refl)
or_iff {A} {B} false b h k = (λ e. inr (k.0 e), onward)
  where
    onward : A ⊎ B → b ≡ true
    onward (inl x) = cc (h.1 x)
    onward (inr y) = k.1 y

pub false_iff : (false ≡ true) ↔ ⊥
false_iff = (λ e. cc, λ x. absurd x)

pub any_iff {ℓ} :
    {A : Type ℓ} (p : A → Bool) (P : A → Type 0) (xs : List A)
    → ((x : A) → (p x ≡ true) ↔ P x)
    → (any p xs ≡ true) ↔ Any P xs
unfolding any
any_iff p P [] f = false_iff
any_iff p P (x ∷ xs) f = or_iff (p x) (any p xs) (f x) (any_iff p P xs f)

module _ {ℓ} {A : Type ℓ} (P : A → Type 0) where
  pub Any-append : (xs ys : List A) → Any P (xs ++ ys) → Any P xs ⊎ Any P ys
  Any-append [] ys h = inr h
  Any-append (x ∷ xs) ys (inl p) = inl (inl p)
  Any-append (x ∷ xs) ys (inr r) = elim (Any-append xs ys r) [ inl q ↦ inl (inr q) | inr q ↦ inr q ]

  pub Any-append_left : (xs ys : List A) → Any P xs → Any P (xs ++ ys)
  Any-append_left [] ys h = absurd h
  Any-append_left (x ∷ xs) ys (inl p) = inl p
  Any-append_left (x ∷ xs) ys (inr r) = inr (Any-append_left xs ys r)

  pub Any-append_right : (xs ys : List A) → Any P ys → Any P (xs ++ ys)
  Any-append_right [] ys h = h
  Any-append_right (x ∷ xs) ys h = inr (Any-append_right xs ys h)

pub All-retain {ℓ κ} :
    {A : Type ℓ} (P : A → Type κ) (p : A → Bool) (xs : List A) → All P xs → All P (retain p xs)
unfolding retain
All-retain P p [] h = tt
All-retain {A = A} P p (x ∷ xs) h = go (p x) (retain p xs) (All-retain P p xs h.1)
  where
    go : (b : Bool) (rest : List A) → All P rest → All P (elim b [ true ↦ x ∷ rest | false ↦ rest ])
    go true rest a = (h.0, a)
    go false rest a = a
