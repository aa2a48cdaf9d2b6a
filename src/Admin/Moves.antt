-- ===== src/Admin/Moves.antt =====
-- backend/src/routes/admin.rs: steps on the store that succeed, and keys that are apart.
use rawdb.Base.{
  ℕ, ◌≡◌, ◌≢◌, refl, sym, subst, ap, ◌∙◌, [], ◌∷◌, ◌++◌, Text, Result, ok, err, map_err, arith,
}
use rawdb.Error.{AppError, other}
use rawdb.Action.{Action, ◌>>=◌, >>=-ok, pure-ok, pure-state}
use rawdb.S3.{S3Error}
use rawdb.State.{with_store, Pod}
use rawdb.Verify.{upload_prefix}
use rawdb.Admin.Objects.{set_prefix}

-- a step on the store that succeeds changes nothing else
pub with_store-ok {ℓ} :
    {St : Type 0} {A : Type ℓ} (f : St → Result S3Error A × St) (pod pod' : Pod St) (a : A)
    → with_store f pod ≡ (ok a, pod')
    → (s : St) × (f pod.store ≡ (ok a, s)) × (pod' ≡ record pod { store = s })
with_store-ok {St} {A} f pod pod' a h = go (f pod.store).0 (f pod.store).1 refl h
  where
    go :
        (r : Result S3Error A) (s : St)
        → f pod.store ≡ (r, s)
        → ◌≡◌ {A = Result AppError A × Pod St}
            (map_err (λ e. other) r, record pod { store = s })
            (ok a, pod')
        → (s : St) × (f pod.store ≡ (ok a, s)) × (pod' ≡ record pod { store = s })
    go (ok x) s e q = (s, e ∙ ap (λ y. (ok y, s)) (pure-ok q), sym (pure-state q))
    go (err x) s e q = absurd (refused (ap (λ w. w.0) q))
      where
        refused : ◌≡◌ {A = Result AppError A} (err other) (ok a) → ⊥
        refused w = cc

pub store->>=-ok {ℓ κ} :
    {St : Type 0} {A : Type ℓ} {B : Type κ} (f : St → Result S3Error A × St)
    (g : A → Action (Pod St) B) (pod pod' : Pod St) (b : B)
    → (with_store f >>= g) pod ≡ (ok b, pod')
    → (a : A) × (s : St) × (f pod.store ≡ (ok a, s))
      × (g a (record pod { store = s }) ≡ (ok b, pod'))
store->>=-ok {St} {A} {B} f g pod pod' b h = go (>>=-ok (with_store f) g pod h)
  where
    go :
        (a : A) × (q : Pod St) × (with_store f pod ≡ (ok a, q)) × (g a q ≡ (ok b, pod'))
        → (a : A) × (s : St) × (f pod.store ≡ (ok a, s))
          × (g a (record pod { store = s }) ≡ (ok b, pod'))
    go (a, q, w, k) = moved (with_store-ok f pod q a w)
      where
        moved :
            (s : St) × (f pod.store ≡ (ok a, s)) × (q ≡ record pod { store = s })
            → (a : A) × (s : St) × (f pod.store ≡ (ok a, s))
              × (g a (record pod { store = s }) ≡ (ok b, pod'))
        moved (s, e, p) = (a, s, e, subst (λ r. g a r ≡ (ok b, pod')) p k)

-- no key is under the prefix of an upload and under that of a set
pub prefixes_differ :
    (upload_id maker model x y : Text) → upload_prefix upload_id ++ x ≢ set_prefix maker model ++ y
prefixes_differ upload_id maker model x y e = absurd (omega (arith, ap first e))
  where
    first : Text → ℕ
    first [] = 0
    first (c ∷ t) = c
