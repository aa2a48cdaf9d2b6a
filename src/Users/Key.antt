-- ===== src/Users/Key.antt =====
-- backend/src/routes/me.rs, `create_api_key`: who gets a key.
use rawdb.Base.{
  ◌≡◌, refl, ap, ◌∙◌, inl, inr, Bool, true, false, some, Option-cases, Bool-cases, Text, ◌==◌,
  Result, ok, err,
}
use rawdb.Error.{AppError}
use rawdb.S3.{S3, Bytes, IsStore}
use rawdb.Auth.{UserRow, bootstrap_sub, has_role}
use rawdb.Auth.ApiKey.{role_apiservice}
use rawdb.Cache.{get_user}
use rawdb.State.{Pod}
use rawdb.SyncTick.{Domain}
use rawdb.Users.{User, UsersFile, UsersError, Codec, Request}
use rawdb.Users.Admin.{find_user, set_key, create_api_key, answer}
use rawdb.Users.Edit.{IsChange, set_key-IsChange}
use rawdb.Users.Attempt.{HasEtags, EtagsIdentify, IsUpdate}
use rawdb.Users.Commit.{cas_update-IsUpdate}

keyed :
    (sub key_hash : Text) (current next : UsersFile)
    → set_key sub key_hash current ≡ ok next
    → (u : User) × (find_user sub next ≡ some u) × (u.api_key_hash ≡ some key_hash)
keyed sub key_hash current next h =
    found (set_key sub key_hash current) (set_key-IsChange sub key_hash current) h
  where
    found :
        (r : Result UsersError UsersFile)
        → IsChange sub (λ u. record u { api_key_hash = some key_hash }) current r
        → r ≡ ok next
        → (u : User) × (find_user sub next ≡ some u) × (u.api_key_hash ≡ some key_hash)
    found (err e) c q = cc
    found (ok n) (u, a, b, c) q =
        (record u { api_key_hash = some key_hash }, ap (find_user sub) (same n next q) ∙ b, refl)
      where
        same : (n m : UsersFile) → ◌≡◌ {A = Result UsersError UsersFile} (ok n) (ok m) → m ≡ n
        same n m w = cc

module _ {St : Type 0} {s3 : S3 St} (st : IsStore s3) (codec : Codec) (conditional : Bool)
    (tick : Domain → Bytes) (others : Request → St → St) where
  abbrev pub IsKeyAnswer : Text → Text → Text → Pod St → Result AppError Text × Pod St → Type 0
  IsKeyAnswer sub key key_hash pod (err e, pod') = (s : St) × (pod' ≡ record pod { store = s })
  IsKeyAnswer sub key key_hash pod (ok k, pod') =
      (k ≡ key)
      × ((sub == bootstrap_sub) ≡ false)
      × ((row : UserRow) × (get_user sub pod.cache ≡ some row)
          × (has_role row.roles role_apiservice ≡ true))
      × ((next : UsersFile) × (u : User) × (find_user sub next ≡ some u)
          × (u.api_key_hash ≡ some key_hash)
          × IsUpdate st codec conditional tick others (set_key sub key_hash) pod (ok next, pod'))

  granted :
      (sub key key_hash : Text) (pod : Pod St) (row : UserRow)
      → (sub == bootstrap_sub) ≡ false
      → get_user sub pod.cache ≡ some row
      → has_role row.roles role_apiservice ≡ true
      → (out : Result UsersError UsersFile × Pod St)
      → IsUpdate st codec conditional tick others (set_key sub key_hash) pod out
      → IsKeyAnswer sub key key_hash pod (answer key out)
  granted sub key key_hash pod row b g r (err e, pod') h = h
  granted sub key key_hash pod row b g r (ok next, pod') (inl (s, current, w, m, z, v)) =
      let (u, i, j) = keyed sub key_hash current next m in
      (refl, b, (row, g, r), (next, u, i, j, inl (s, current, w, m, z, v)))
  granted sub key key_hash pod row b g r (ok next, pod')
        (inr (s, s', current, o, e, c, w, m, z, z1, z2, z3, z4)) =
      let (u, i, j) = keyed sub key_hash current next m in
      (
        refl,
        b,
        (row, g, r),
        (next, u, i, j, inr (s, s', current, o, e, c, w, m, z, z1, z2, z3, z4)),
      )

  -- With conditional writes, a key is answered only to a user other than the bootstrap admin, who in
  -- the mirror has the role `apiservice`; the users file then has the hash of the key in the record
  -- of that user, by an update in the sense of `cas_update`. A refusal changes only the store.
  pub create_api_key-IsKeyAnswer :
      HasEtags st codec
      → EtagsIdentify st codec
      → (sub key key_hash : Text) (pod : Pod St) → conditional ≡ true
      → IsKeyAnswer sub key key_hash pod
          (create_api_key s3 codec conditional tick others sub key key_hash pod)
  unfolding create_api_key
  create_api_key-IsKeyAnswer he id sub key key_hash pod c =
      elim (Bool-cases (sub == bootstrap_sub)) [
        | inl e ↦ rw (e, create_api_key) (pod.store, refl)
        | inr e ↦ elim (Option-cases (get_user sub pod.cache)) [
          | inl g ↦ rw (e, create_api_key, g) (pod.store, refl)
          | inr (row, g) ↦ elim (Bool-cases (has_role row.roles role_apiservice)) [
            | inl r ↦
                rw (e, create_api_key, g, r)
                  (granted sub key key_hash pod row e g r _ (
                    cas_update-IsUpdate st codec conditional tick others he id
                      (set_key sub key_hash) pod c))
            | inr r ↦ rw (e, create_api_key, g, r) (pod.store, refl)
          ]
        ]
      ]
