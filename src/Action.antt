-- ===== src/Action.antt =====
-- A handler: it changes the shared state and returns a value or an `AppError`.
use rawdb.Base.{Result, ok, err, ◌≡◌, refl, ap}
use rawdb.Error.{AppError}

abbrev pub Action {ℓ κ} : Type ℓ → Type κ → Type (ℓ ⊔ κ)
Action St A = St → Result AppError A × St

infixl 5 ◌>>=◌ ◌>>◌
module _ {ℓ κ} {St : Type ℓ} {A : Type κ} where
  abbrev pub pure : A → Action St A
  pure a s = (ok a, s)

  abbrev pub raise : AppError → Action St A
  raise e s = (err e, s)

  abbrev pub lift : Result AppError A → Action St A
  lift r s = (r, s)

  -- a read of the state
  abbrev pub gets : (St → Result AppError A) → Action St A
  gets f s = (f s, s)

unfoldable pub ◌>>=◌ {ℓ κ μ} :
    {St : Type ℓ} {A : Type κ} {B : Type μ} → Action St A → (A → Action St B) → Action St B
◌>>=◌ m f s = let (r, s') = m s in elim r [ ok a ↦ f a s' | err e ↦ (err e, s') ]

abbrev pub ◌>>◌ {ℓ κ} :
    {St : Type ℓ} {B : Type κ} → Action St (Unit {0}) → Action St B → Action St B
m >> k = m >>= λ _. k

-- A block that succeeds has succeeded at each step.
pub >>=-ok {ℓ κ μ} :
    {St : Type ℓ} {A : Type κ} {B : Type μ} (m : Action St A) (f : A → Action St B) (s : St) {b : B}
    {s' : St}
    → (m >>= f) s ≡ (ok b, s')
    → (a : A) × (t : St) × (m s ≡ (ok a, t)) × (f a t ≡ (ok b, s'))
unfolding ◌>>=◌
>>=-ok {St} {A} {B} m f s {b} {s'} h = go (m s).0 (m s).1 refl h
  where
    go :
        (r : Result AppError A) (t : St)
        → m s ≡ (r, t)
        → (elim r [ ok a ↦ f a t | err e ↦ (err e, t) ]) ≡ (ok b, s')
        → (a : A) × (t : St) × (m s ≡ (ok a, t)) × (f a t ≡ (ok b, s'))
    go (ok a) t e k = (a, t, e, k)
    go (err x) t e k = cc

pub pure-ok {ℓ κ μ} :
    {St : Type ℓ} {A : Type κ} {E : Type μ} {a b : A} {s s' : St}
    → ◌≡◌ {A = Result E A × St} (ok a, s) (ok b, s')
    → a ≡ b
pure-ok {A} {a} {b} h = ap (λ r. elim r.0 [ ok x ↦ x | err e ↦ a ]) h

pub pure-state {ℓ κ} :
    {St : Type ℓ} {A : Type κ} {a b : A} {s s' : St} → ◌≡◌ {A = A × St} (a, s) (b, s') → s ≡ s'
pure-state h = ap (λ r. r.1) h

-- a read or a test that succeeds
pub lift-ok {ℓ κ} :
    {St : Type ℓ} {A : Type κ} {r : Result AppError A} {a : A} {s s' : St}
    → ◌≡◌ {A = Result AppError A × St} (r, s) (ok a, s')
    → (r ≡ ok a) × (s ≡ s')
lift-ok h = (ap (λ w. w.0) h, ap (λ w. w.1) h)
