-- ===== src/Base/Assoc.antt =====
-- Maps with text keys (`HashMap`, `BTreeMap`), as association lists without double keys.
-- The program does not depend on the order in which it walks such a map.
use mathlib.Core.Path.{◌≡◌, refl}
use mathlib.Core.Logic.{inl, inr}
use mathlib.Core.Option.{Option, none, some}
use mathlib.Core.List.{List, [], ◌∷◌}
use native.Mathlib.Omega.{arith}
use rawdb.Base.Tests.{if◌then◌else◌, Bool-cases}
use rawdb.Base.Lists.{All}
use rawdb.Base.Str.{Text, ◌==◌, eq_iff}

module _ {ℓ} {V : Type ℓ} where
  -- `get(name)`
  unfoldable pub lookup : Text → List (Text × V) → Option V
  lookup name [] = none
  lookup name (slot ∷ more) = if slot.0 == name then some slot.1 else lookup name more

  -- `insert(name, new)`
  unfoldable pub insert : Text → V → List (Text × V) → List (Text × V)
  insert name new [] = (name, new) ∷ []
  insert name new (slot ∷ more) =
      if slot.0 == name then (name, new) ∷ more else slot ∷ insert name new more

  pub lookup-insert :
      (name asked : Text) (new : V) (slots : List (Text × V))
      → lookup asked (insert name new slots)
        ≡ (if name == asked then some new else lookup asked slots)
  unfolding lookup insert
  lookup-insert name asked new [] = refl
  lookup-insert name asked new (slot ∷ more) =
      let rest = lookup-insert name asked new more in
      ground (arith, rest, eq_iff slot.0 name, eq_iff slot.0 asked, eq_iff name asked)

  pub All-insert {κ} :
      (P : Text × V → Type κ) (k : Text) (v : V) (m : List (Text × V))
      → P (k, v)
      → All P m
      → All P (insert k v m)
  unfolding insert
  All-insert P k v [] h a = (h, tt)
  All-insert P k v ((j, w) ∷ m) h a = elim (Bool-cases (j == k)) [
    | inl e ↦ rw e (h, a.1)
    | inr e ↦ rw e (a.0, All-insert P k v m h a.1)
  ]
