-- ===== src/Admin/Delete.antt =====
-- backend/src/routes/admin.rs: what `reject_pending` and `delete_set` do on each branch.
use rawdb.Base.{
  ℕ, zero, suc, ◌≡◌, ◌≢◌, ◌⊎◌, refl, sym, ap, inl, inr, none, some, Option-cases, List, length,
  arith, [], ◌∷◌, ◌++◌, Text, Result, ok, err,
}
use rawdb.Error.{AppError, not_found, other}
use rawdb.S3.{S3, S3Error, Bytes, ObjectInfo, IsStore}
use rawdb.Meta.{SetMeta}
use rawdb.Cache.{get_set}
use rawdb.State.{Pod, Job, refresh_one_set, refresh_one_pending}
use rawdb.SyncTick.{Domain, sets, pending, bump}
use rawdb.Scanner.{samples_prefix, pending_prefix}
use rawdb.Admin.{delete_prefix, rejected, reject_pending, cleared_set, delete_set}
use rawdb.Admin.Clear.{IsWiped, delete_prefix-contents, delete_prefix-IsWiped}

module _ {St : Type 0} {s3 : S3 St} (st : IsStore s3) (tick : Domain → Bytes) where
  -- the prefix is wiped; then the task is spawned and the tick is bumped
  abbrev pub IsCleared : Text → Domain → Job → Pod St → Pod St → Type 0
  IsCleared prefix d job pod pod' =
      (s : St) × IsWiped st prefix pod.store s
      × (pod' ≡ bump s3 tick (d ∷ []) (record pod { store = s; jobs = pod.jobs ++ job ∷ [] }))

  abbrev pub upload_prefix : Text → Text
  upload_prefix upload_id = pending_prefix ++ upload_id ++ b'/' ∷ []

  abbrev pub set_prefix : Text → Text → Text
  set_prefix maker model = samples_prefix ++ maker ++ b'/' ∷ model ++ b'/' ∷ []

  -- the service has listed an object under the prefix, or none
  abbrev pub IsListed : Text → St → Type 0
  IsListed prefix s =
      (objects : List ObjectInfo) × (s3.list_objects prefix s ≡ ok objects) × (objects ≢ [])

  -- the service has failed, and nothing but the store has changed
  abbrev pub IsFailed : Text → Pod St → Pod St → Type 0
  IsFailed prefix pod pod' =
      (x : S3Error) × (s : St) × (delete_prefix s3 prefix pod.store ≡ (err x, s))
      × (pod' ≡ record pod { store = s })

  abbrev pub IsRejection : Text → Pod St → Result AppError (Unit {0}) × Pod St → Type 0
  IsRejection upload_id pod (err e, pod') =
      ((e ≡ not_found)
        × (s3.list_objects (upload_prefix upload_id) pod.store ≡ ok [])
        × (pod' ≡ pod))
      ⊎ ((e ≡ other) × IsFailed (upload_prefix upload_id) pod pod')
  IsRejection upload_id pod (ok u, pod') =
      IsListed (upload_prefix upload_id) pod.store
      × IsCleared (upload_prefix upload_id) pending (refresh_one_pending upload_id) pod pod'

  delete_prefix-empty :
      (prefix : Text) (n : ℕ) (s t : St)
      → s3.list_objects prefix s ≡ ok []
      → delete_prefix s3 prefix s ≡ (ok n, t)
      → t ≡ s
  unfolding delete_prefix rawdb.Admin.chunks
  delete_prefix-empty prefix n s t e h = sym (ap (λ q. q.1) (rw (delete_prefix, e) at h))

  rejected-IsRejection :
      (upload_id : Text) (pod : Pod St) (w : Result S3Error ℕ × St)
      → delete_prefix s3 (upload_prefix upload_id) pod.store ≡ w
      → IsRejection upload_id pod (rejected s3 tick upload_id pod w)
  rejected-IsRejection upload_id pod (err e, s) h = inr (refl, (e, s, h, refl))
  rejected-IsRejection upload_id pod (ok zero, s) h =
      let (objects, l, count, gone, same, out) =
        delete_prefix-contents st (upload_prefix upload_id) 0 pod.store s h in
      inl (empty objects l count)
    where
      empty :
          (objects : List ObjectInfo)
          → s3.list_objects (upload_prefix upload_id) pod.store ≡ ok objects
          → 0 ≡ length objects
          → (not_found ≡ not_found)
            × (s3.list_objects (upload_prefix upload_id) pod.store ≡ ok [])
            × (record pod { store = s } ≡ pod)
      empty [] l c = (
        refl,
        l,
        ap (λ t. record pod { store = t })
            (delete_prefix-empty (upload_prefix upload_id) 0 pod.store s l h),
      )
      empty (o ∷ os) l c = absurd (omega (arith, c))
  rejected-IsRejection upload_id pod (ok (suc n), s) h =
      let (objects, l, count, gone, same, out) =
        delete_prefix-contents st (upload_prefix upload_id) (suc n) pod.store s h in
      (
        (objects, l, some_objects objects count),
        (s, delete_prefix-IsWiped st (upload_prefix upload_id) (suc n) pod.store s h, refl),
      )
    where
      some_objects : (objects : List ObjectInfo) → suc n ≡ length objects → objects ≢ []
      some_objects [] c = absurd (omega (arith, c))
      some_objects (o ∷ os) c = λ e. cc

  -- A rejection succeeds only if the service lists an object under the prefix of the upload. Then each object
  -- under the prefix is deleted, except those for which the service reports an error, and every other object is
  -- as it was; the refresh of the cache is spawned and the tick of the pending uploads is bumped. It fails with
  -- not-found only if the listing is empty, and then changes nothing; or with an internal error if the
  -- service fails, which changes nothing but the store: no task is spawned and no tick is bumped.
  pub reject_pending-IsRejection :
      (upload_id : Text) (pod : Pod St)
      → IsRejection upload_id pod (reject_pending s3 tick upload_id pod)
  unfolding reject_pending
  reject_pending-IsRejection upload_id pod = rejected-IsRejection upload_id pod _ refl

  abbrev pub IsDeletion : Text → Text → Pod St → Result AppError (Unit {0}) × Pod St → Type 0
  IsDeletion maker model pod (err e, pod') =
      ((e ≡ not_found) × (get_set maker model pod.cache ≡ none) × (pod' ≡ pod))
      ⊎ ((e ≡ other)
          × (get_set maker model pod.cache ≢ none)
          × IsFailed (set_prefix maker model) pod pod')
  IsDeletion maker model pod (ok u, pod') =
      (get_set maker model pod.cache ≢ none)
      × IsCleared (set_prefix maker model) sets (refresh_one_set maker model) pod pod'

  cleared_set-IsDeletion :
      (maker model : Text) (pod : Pod St) (w : Result S3Error ℕ × St)
      → get_set maker model pod.cache ≢ none
      → delete_prefix s3 (set_prefix maker model) pod.store ≡ w
      → IsDeletion maker model pod (cleared_set s3 tick maker model pod w)
  cleared_set-IsDeletion maker model pod (err e, s) n h = inr (refl, n, (e, s, h, refl))
  cleared_set-IsDeletion maker model pod (ok m, s) n h =
      (n, (s, delete_prefix-IsWiped st (set_prefix maker model) m pod.store s h, refl))

  -- The deletion of a set succeeds only for a set of the cache. Then each object under the prefix of the set
  -- is deleted, except those for which the service reports an error, and every other object is as it was,
  -- also that of a set whose model begins alike; the refresh is spawned and the tick of the sets is bumped.
  -- For another set it is refused and changes nothing; and where the service fails, no task is spawned, no
  -- tick is bumped and the cache stays.
  pub delete_set-IsDeletion :
      (maker model : Text) (pod : Pod St)
      → IsDeletion maker model pod (delete_set s3 tick maker model pod)
  unfolding delete_set
  delete_set-IsDeletion maker model pod = elim (Option-cases (get_set maker model pod.cache)) [
    | inl e ↦ rw (e, delete_set) (inl (refl, e, refl))
    | inr (row, e) ↦
        rw (e, delete_set) (cleared_set-IsDeletion maker model pod _ (λ n. ne row (sym e) n) refl)
  ]
    where
      ne :
          (row : SetMeta)
          → some row ≡ get_set maker model pod.cache
          → get_set maker model pod.cache ≡ none
          → ⊥
      ne row p q = cc
