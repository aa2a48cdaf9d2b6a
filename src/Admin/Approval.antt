-- ===== src/Admin/Approval.antt =====
-- backend/src/routes/admin.rs: what an approval that succeeds has done.
use rawdb.Base.{
  ◌≡◌, ◌≢◌, ◌⊎◌, inl, inr, subst, ap, Option, none, List, [], ◌++◌, Text, codes, All, Result, ok,
  err, Result-cases,
}
use rawdb.Error.{AppError}
use rawdb.Action.{>>=-ok}
use rawdb.S3.{S3, Bytes, IsStore}
use rawdb.Meta.{SetMeta, FileMeta, RawdbMeta, DateTime}
use rawdb.Meta.Plain.{files-ne-meta}
use rawdb.Cache.{get_set}
use rawdb.State.{Pod}
use rawdb.SyncTick.{Domain}
use rawdb.Scanner.{meta_file}
use rawdb.Verify.{load_meta, upload_prefix}
use rawdb.Admin.Selection.{ApproveRequest, conflict_mode, selected, prepare}
use rawdb.Admin.Prepared.{load_meta-IsValidMeta, selected-All, prepare-ok}
use rawdb.Admin.Approve.{approved, resolve, copy_and_put, promote_files, approve_pending}
use rawdb.Admin.Promote.{IsResolved, resolve-IsResolved, Announced}
use rawdb.Admin.Merged.{
  IsFilter, IsSelected, selected-IsFilter, IsApprovedSet, approved-IsApprovedSet, IsMode,
  conflict_mode-IsMode, IsDated, pin_date-IsDated,
}
use rawdb.Admin.Placed.{IsPlaced, copy_and_put-IsPlaced}

module _ {St : Type 0} {s3 : S3 St} (st : IsStore s3) (from_utf8 : Bytes → Option Text)
    (from_str : Text → Option RawdbMeta) (rfc3339 : DateTime → Text) (into_bytes : Text → Bytes)
    (tick : Domain → Bytes) where
  -- The conflict resolution leaves a store `s` in which the upload is as it was, and which is the first one
  -- unless a set is replaced.
  abbrev pub IsPromotion :
      Text → Text → Text → SetMeta → Option SetMeta → List FileMeta → Pod St → Pod St → Type 0
  IsPromotion mode upload_id by set old promote pod pod' =
      (existing : List FileMeta) × (s t : St) × IsResolved st from_utf8 from_str rfc3339 into_bytes
        tick mode set.maker set.model old existing pod.store
      × ((k : Text)
          → st.contents s (upload_prefix upload_id ++ k)
            ≡ st.contents pod.store (upload_prefix upload_id ++ k))
      × ((mode ≢ codes "replace" ⊎ old ≡ none) → s ≡ pod.store)
      × IsPlaced st from_utf8 from_str rfc3339 into_bytes tick upload_id set promote existing s t
      × (pod' ≡ Announced st from_utf8 from_str rfc3339 into_bytes tick upload_id by set pod t)

  promote_files-IsPromotion :
      (mode upload_id by : Text) (set : SetMeta) (old : Option SetMeta) (promote : List FileMeta)
      (pod pod' : Pod St)
      → All (λ f. f.path ≢ meta_file) promote
      → promote_files s3 from_utf8 from_str rfc3339 into_bytes tick mode upload_id by set old
          promote pod
        ≡ (ok tt, pod')
      → IsPromotion mode upload_id by set old promote pod pod'
  unfolding promote_files
  promote_files-IsPromotion mode upload_id by set old promote pod pod' named h = resolved (
      >>=-ok (resolve s3 from_utf8 from_str rfc3339 into_bytes tick mode set.maker set.model old)
        (λ existing.
          copy_and_put s3 from_utf8 from_str rfc3339 into_bytes tick upload_id by set promote
            existing)
        pod h)
    where
      placed :
          (existing : List FileMeta) (s : St)
          → copy_and_put s3 from_utf8 from_str rfc3339 into_bytes tick upload_id by set promote
              existing
              (record pod { store = s })
            ≡ (ok tt, pod')
          → (t : St) × IsPlaced st from_utf8 from_str rfc3339 into_bytes tick upload_id set promote
              existing s t
            × (pod'
                ≡ Announced st from_utf8 from_str rfc3339 into_bytes tick upload_id by set pod t)
      placed existing s c =
          copy_and_put-IsPlaced st from_utf8 from_str rfc3339 into_bytes tick upload_id by set
            promote existing (record pod { store = s }) pod' named c

      resolved :
          (existing : List FileMeta) × (q : Pod St) × (resolve s3 from_utf8 from_str rfc3339
                into_bytes tick mode set.maker set.model old pod
              ≡ (ok existing, q))
            × (copy_and_put s3 from_utf8 from_str rfc3339 into_bytes tick upload_id by set promote
                  existing q
                ≡ (ok tt, pod'))
          → IsPromotion mode upload_id by set old promote pod pod'
      resolved (existing, q, r, c) =
          let (kept, (s, e, upload, same)) =
            resolve-IsResolved st from_utf8 from_str rfc3339 into_bytes tick mode set.maker
              set.model upload_id old existing pod q r in
          let (t, p, a) = placed existing s (
            subst
              (λ w.
                copy_and_put s3 from_utf8 from_str rfc3339 into_bytes tick upload_id by set promote
                  existing w
                ≡ (ok tt, pod'))
              e c) in
          (existing, s, t, kept, upload, same, p, a)

  abbrev pub IsApproval : DateTime → Text → Text → ApproveRequest → Pod St → Pod St → Type 0
  IsApproval now by upload_id req pod pod' =
      (parsed : RawdbMeta) × (date : Option DateTime) × (mode : Text) × (set : SetMeta)
      × (promote : List FileMeta) × (load_meta s3 from_utf8 from_str
            (upload_prefix upload_id ++ meta_file) pod.store
          ≡ ok parsed)
      × IsDated s3 (upload_prefix upload_id ++ meta_file) pod.store parsed.set.uploaded_at date
      × IsMode req.conflict mode
      × IsApprovedSet now by date (get_set parsed.set.maker parsed.set.model pod.cache) parsed.set
          set
      × IsFilter (IsSelected req.files) parsed.files promote
      × (promote ≢ [])
      × IsPromotion mode upload_id by set (get_set parsed.set.maker parsed.set.model pod.cache)
          promote pod pod'

  -- An approval succeeds only for an upload whose meta can be read and of which some file is selected, and
  -- under `refuse`, the mode of a request that names none, only for a set that the cache does not have. Then
  -- each selected file whose key in the upload has no `%` and no `+` lies in the set with the content that
  -- it had in the upload. The meta of the set has what the uploader wrote, with the date and this approval;
  -- the first approval stays that of the set of the cache, if there is one. It lists the selected files
  -- after the files of the set that were kept and that they do not replace. Other objects of the set stay
  -- unless the set is replaced. The listed objects of the upload are deleted, except those for which the
  -- service reports an error; the refreshes, the event and the ticks follow.
  pub approve_pending-IsApproval :
      (now : DateTime) (by upload_id : Text) (req : ApproveRequest) (pod pod' : Pod St)
      → approve_pending s3 from_utf8 from_str rfc3339 into_bytes tick now by upload_id req pod
        ≡ (ok tt, pod')
      → IsApproval now by upload_id req pod pod'
  unfolding approve_pending
  approve_pending-IsApproval now by upload_id req pod pod' h =
      approved_or (Result-cases (prepare s3 from_utf8 from_str upload_id req pod.store))
    where
      refused :
          {x : AppError}
          → ◌≡◌ {A = Result AppError (Unit {0}) × Pod St} (err x, pod) (ok tt, pod')
          → ⊥
      refused w = failed (ap (λ r. r.0) w)
        where
          failed : {x : AppError} → ◌≡◌ {A = Result AppError (Unit {0})} (err x) (ok tt) → ⊥
          failed q = cc

      approved_or :
          ((p : RawdbMeta × Option DateTime × List FileMeta) × (prepare s3 from_utf8 from_str
                  upload_id req pod.store
                ≡ ok p))
            ⊎ ((x : AppError) × (prepare s3 from_utf8 from_str upload_id req pod.store ≡ err x))
          → IsApproval now by upload_id req pod pod'
      approved_or (inr (x, e)) = absurd (refused (rw (approve_pending, e) at h))
      approved_or (inl ((parsed, date, promote), e)) =
          let (l, d, same, ne) =
            prepare-ok s3 from_utf8 from_str upload_id req pod.store parsed date promote e in
          (
            parsed,
            date,
            conflict_mode req.conflict,
            approved now by (get_set parsed.set.maker parsed.set.model pod.cache)
                (record parsed.set { uploaded_at = date }),
            selected req.files parsed.files,
            l,
            pin_date-IsDated s3 (upload_prefix upload_id ++ meta_file) pod.store
                parsed.set.uploaded_at date d,
            conflict_mode-IsMode req.conflict,
            approved-IsApprovedSet now by date (get_set parsed.set.maker parsed.set.model pod.cache)
                parsed.set,
            selected-IsFilter req.files parsed.files,
            ne,
            promote_files-IsPromotion (conflict_mode req.conflict) upload_id by
                (approved now by (get_set parsed.set.maker parsed.set.model pod.cache)
                  (record parsed.set { uploaded_at = date }))
                (get_set parsed.set.maker parsed.set.model pod.cache)
                (selected req.files parsed.files) pod pod'
                (selected-All req.files parsed.files (
                  files-ne-meta parsed (
                    load_meta-IsValidMeta s3 from_utf8 from_str
                      (upload_prefix upload_id ++ meta_file) pod.store parsed l)))
                (rw (approve_pending, e, same) at h),
          )
