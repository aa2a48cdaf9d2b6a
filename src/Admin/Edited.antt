-- ===== src/Admin/Edited.antt =====
-- backend/src/routes/admin.rs: what `edit_set` and `edit_pending` do on each branch.
use rawdb.Base.{
  ◌≡◌, ◌⊎◌, inl, inr, refl, subst, ap, ◌∙◌, false, Bool-cases, Option, some, Option-cases, List, [],
  ◌∷◌, Text, Any, All, is_empty, trim, Result, ok, err, Result-cases, ◌>>◌,
}
use rawdb.Error.{AppError, other}
use rawdb.S3.{S3, S3Error, Bytes, IsStore}
use rawdb.Meta.{SetMeta, RawdbMeta, DateTime}
use rawdb.Cache.{get_set}
use rawdb.State.{Pod}
use rawdb.SyncTick.{Domain, sets, bump}
use rawdb.Scanner.Pass.{refresh_one_set, refresh_one_pending}
use rawdb.Verify.{upload_prefix}
use rawdb.Admin.Objects.{set_prefix}
use rawdb.Admin.Remove.{at_once}
use rawdb.Admin.Edit.{EditRequest, EditSetRequest, check_paths, edited_pending, edited_set}
use rawdb.Admin.EditSet.{
  dropped, missing_files, none_missing, apply_edit, check_edit, edited_upload, edit_pending,
  edited_sample, check_set_edit, edit_set,
}
use rawdb.Admin.Edits.{IsFresh, check_paths-IsFresh, missing_files-none, apply_edit-IsApplied}
use rawdb.Admin.Carried.{
  IsEditedSet, edited_set-IsEditedSet, IsEditedUpload, edited_pending-IsEditedUpload,
  slots-NamesAll,
}
use rawdb.Admin.Before.{
  files_before, files_before-IsBefore, HasEntries, entries-HasEntries, IsStoredEdit, IsFailed,
  NamesOld, none_dropped,
}

module _ {St : Type 0} {s3 : S3 St} (st : IsStore s3) (from_utf8 : Bytes → Option Text)
    (from_str : Text → Option RawdbMeta) (rfc3339 : DateTime → Text) (into_bytes : Text → Bytes)
    (tick : Domain → Bytes) where
  -- an edit of a set that is let through
  abbrev pub IsSetRequest : Text → Text → EditSetRequest → Pod St → SetMeta → Type 0
  IsSetRequest maker model req pod row =
      (get_set maker model pod.cache ≡ some row)
      × IsFresh [] req.files
      × NamesOld st from_utf8 from_str rfc3339 into_bytes tick (set_prefix maker model) req.files
          pod

  check_set_edit-IsSetRequest :
      (blocked : List Text) (maker model : Text) (req : EditSetRequest) (pod : Pod St)
      (row : SetMeta)
      → check_set_edit s3 from_utf8 from_str rfc3339 into_bytes tick blocked maker model req pod
        ≡ ok row
      → IsSetRequest maker model req pod row
  unfolding check_set_edit
  check_set_edit-IsSetRequest blocked maker model req pod row h =
      elim (Option-cases (get_set maker model pod.cache)) [
        | inl k ↦ absurd (refused (rw (check_set_edit, k) at h))
        | inr (old, k) ↦ elim (Result-cases (check_paths blocked [] req.files)) [
          | inr (x, c) ↦ absurd (refused (rw (check_set_edit, k, c) at h))
          | inl (u, c) ↦ listed old k c _ refl (rw (check_set_edit, k, c) at h)
        ]
      ]
    where
      refused : {x : AppError} → ◌≡◌ {A = Result AppError SetMeta} (err x) (ok row) → ⊥
      refused w = cc

      listed :
          (old : SetMeta)
          → get_set maker model pod.cache ≡ some old
          → check_paths blocked [] req.files ≡ ok tt
          → (gaps : List Text)
          → missing_files req.files (
              files_before st from_utf8 from_str rfc3339 into_bytes tick
                (set_prefix maker model)
                pod)
            ≡ gaps
          → (do none_missing gaps; ok old) ≡ ok row
          → IsSetRequest maker model req pod row
      listed old k c [] m w = (
        k ∙ ap some (taken w),
        check_paths-IsFresh blocked [] req.files c,
        (λ before b.
            let (k, d) =
              files_before-IsBefore st from_utf8 from_str rfc3339 into_bytes tick
                (set_prefix maker model) pod before b in
            slots-NamesAll req.files before d (
              subst (λ known. All (λ slot. Any (λ f. f.old_path ≡ slot.0) req.files) known) k
                (missing_files-none req.files
                  (files_before st from_utf8 from_str rfc3339 into_bytes tick
                    (set_prefix maker model) pod)
                  m))),
      )
        where
          taken : ◌≡◌ {A = Result AppError SetMeta} (ok old) (ok row) → old ≡ row
          taken q = cc
      listed old k c (p ∷ ps) m w = absurd (refused w)

  abbrev pub IsSetEdit :
      List Text
      → Text
      → Text
      → EditSetRequest
      → Pod St
      → Result AppError (Unit {0}) × Pod St
      → Type 0
  IsSetEdit blocked maker model req pod (ok u, pod') =
      (row : SetMeta) × (meta : RawdbMeta) × (s : St) × IsSetRequest maker model req pod row
      × IsEditedSet maker model row req meta
      × HasEntries st from_utf8 from_str rfc3339 into_bytes tick (set_prefix maker model) req.files
          pod meta
      × IsStoredEdit st from_utf8 from_str rfc3339 into_bytes tick (set_prefix maker model)
          req.files (Unit {0}) meta pod.store s
      × (pod'
          ≡ bump s3 tick (sets ∷ []) (record pod {
            store = s;
            cache = (refresh_one_set s3 from_utf8 from_str (at_once s) maker model pod.cache).1;
          }))
  IsSetEdit blocked maker model req pod (err e, pod') =
      ((check_set_edit s3 from_utf8 from_str rfc3339 into_bytes tick blocked maker model req pod
          ≡ err e)
        × (pod' ≡ pod))
      ⊎ ((e ≡ other)
          × IsFailed st from_utf8 from_str rfc3339 into_bytes tick (set_prefix maker model)
              req.files pod pod')

  -- An edit of a set succeeds only for a set of the cache, if the destinations are distinct paths in category
  -- folders and the request names every file of the stored meta; if that meta cannot be read, nothing is
  -- required. Then a meta is stored that has the fields of the request, the approval record of the set, and
  -- for each file of the request the hash of the old file that it names, if the old meta can be read. If no
  -- file is renamed, every other object is as it was; the cache is refreshed from the new store and the tick
  -- of the sets is bumped. A refused edit changes nothing, and a failure of the service nothing but the store.
  pub edit_set-IsSetEdit :
      (blocked : List Text) (maker model : Text) (req : EditSetRequest) (pod : Pod St)
      → IsSetEdit blocked maker model req pod
          (edit_set s3 from_utf8 from_str rfc3339 into_bytes tick blocked maker model req pod)
  unfolding edit_set edited_set
  edit_set-IsSetEdit blocked maker model req pod =
      elim (Result-cases (
        check_set_edit s3 from_utf8 from_str rfc3339 into_bytes tick blocked maker model req pod)) [
          | inr (x, e) ↦ rw (edit_set, e) (inl (e, refl))
          | inl (row, e) ↦
              rw (edit_set, e)
                (stored row (check_set_edit-IsSetRequest blocked maker model req pod row e) _ refl)
        ]
    where
      written : SetMeta → RawdbMeta
      written row =
          edited_set maker model row req (
            files_before st from_utf8 from_str rfc3339 into_bytes tick (set_prefix maker model) pod)

      stored :
          (row : SetMeta)
          → IsSetRequest maker model req pod row
          → (w : Result S3Error Text × St)
          → apply_edit s3 from_utf8 from_str rfc3339 into_bytes tick
              (set_prefix maker model)
              req.files
              []
              (edited_set maker model row req (
                files_before st from_utf8 from_str rfc3339 into_bytes tick
                  (set_prefix maker model)
                  pod))
              pod.store
            ≡ w
          → IsSetEdit blocked maker model req pod
              (edited_sample s3 from_utf8 from_str rfc3339 into_bytes tick maker model pod w)
      stored row r (err x, s) w = inr (refl, (x, s, written row, [], w, refl))
      stored row r (ok etag, s) w =
          let (kept, same) =
            apply_edit-IsApplied st from_utf8 from_str rfc3339 into_bytes tick
              (set_prefix maker model) req.files [] (written row) pod.store s etag w in
          (
            row,
            written row,
            s,
            r,
            edited_set-IsEditedSet maker model row req (
                files_before st from_utf8 from_str rfc3339 into_bytes tick (set_prefix maker model)
                  pod),
            entries-HasEntries st from_utf8 from_str rfc3339 into_bytes tick
                (set_prefix maker model) req.files pod (written row) refl,
            (kept, λ i u. same i refl),
            refl,
          )

  abbrev pub IsUploadEdit :
      List Text → Text → EditRequest → Pod St → Result AppError (Unit {0}) × Pod St → Type 0
  IsUploadEdit blocked upload_id req pod (ok u, pod') =
      (meta : RawdbMeta) × (s : St) × (is_empty (trim req.maker) ≡ false)
      × (is_empty (trim req.model) ≡ false)
      × IsFresh [] req.files
      × IsEditedUpload req meta
      × HasEntries st from_utf8 from_str rfc3339 into_bytes tick (upload_prefix upload_id) req.files
          pod meta
      × IsStoredEdit st from_utf8 from_str rfc3339 into_bytes tick (upload_prefix upload_id)
          req.files
          (NamesOld st from_utf8 from_str rfc3339 into_bytes tick (upload_prefix upload_id)
            req.files pod)
          meta pod.store s
      × (pod' ≡ record pod {
        store = s;
        cache = (refresh_one_pending s3 from_utf8 from_str (at_once s) upload_id pod.cache).1;
      })
  IsUploadEdit blocked upload_id req pod (err e, pod') =
      ((check_edit s3 from_utf8 from_str rfc3339 into_bytes tick blocked req ≡ err e)
        × (pod' ≡ pod))
      ⊎ ((e ≡ other)
          × IsFailed st from_utf8 from_str rfc3339 into_bytes tick (upload_prefix upload_id)
              req.files pod pod')

  -- An edit of an upload succeeds only with a maker and a model and with distinct destinations in category
  -- folders. Then a meta is stored that has the fields of the request, no approval record, and for each file
  -- of the request the hash of the old file that it names, if the old meta can be read. If no file is renamed
  -- and the request names every file of the old meta, every other object is as it was. The cache is refreshed
  -- from the new store. A refused edit changes nothing, and a failure of the service nothing but the store.
  pub edit_pending-IsUploadEdit :
      (blocked : List Text) (upload_id : Text) (req : EditRequest) (pod : Pod St)
      → IsUploadEdit blocked upload_id req pod
          (edit_pending s3 from_utf8 from_str rfc3339 into_bytes tick blocked upload_id req pod)
  unfolding edit_pending check_edit edited_pending
  edit_pending-IsUploadEdit blocked upload_id req pod =
      elim (Result-cases (check_edit s3 from_utf8 from_str rfc3339 into_bytes tick blocked req)) [
        | inr (x, e) ↦ rw (edit_pending, e) (inl (e, refl))
        | inl (u, e) ↦ rw (edit_pending, e) (stored (checked e) _ refl)
      ]
    where
      written : RawdbMeta
      written =
          edited_pending req (
            files_before st from_utf8 from_str rfc3339 into_bytes tick (upload_prefix upload_id)
              pod)

      checked :
          check_edit s3 from_utf8 from_str rfc3339 into_bytes tick blocked req ≡ ok tt
          → (is_empty (trim req.maker) ≡ false)
            × (is_empty (trim req.model) ≡ false)
            × IsFresh [] req.files
      checked h = elim (Bool-cases (is_empty (trim req.maker))) [
        | inl a ↦ absurd (refused (rw (check_edit, a) at h))
        | inr a ↦ elim (Bool-cases (is_empty (trim req.model))) [
          | inl b ↦ absurd (refused (rw (check_edit, a, b) at h))
          | inr b ↦ (a, b, check_paths-IsFresh blocked [] req.files (rw (check_edit, a, b) at h))
        ]
      ]
        where
          refused : {x : AppError} → ◌≡◌ {A = Result AppError (Unit {0})} (err x) (ok tt) → ⊥
          refused w = cc

      stored :
          (is_empty (trim req.maker) ≡ false)
            × (is_empty (trim req.model) ≡ false)
            × IsFresh [] req.files
          → (w : Result S3Error Text × St)
          → apply_edit s3 from_utf8 from_str rfc3339 into_bytes tick
              (upload_prefix upload_id)
              req.files
              (dropped (upload_prefix upload_id) req.files (
                files_before st from_utf8 from_str rfc3339 into_bytes tick
                  (upload_prefix upload_id)
                  pod))
              (edited_pending req (
                files_before st from_utf8 from_str rfc3339 into_bytes tick
                  (upload_prefix upload_id)
                  pod))
              pod.store
            ≡ w
          → IsUploadEdit blocked upload_id req pod
              (edited_upload s3 from_utf8 from_str rfc3339 into_bytes tick upload_id pod w)
      stored r (err x, s) w = inr (refl, (x, s, written, _, w, refl))
      stored (a, b, c) (ok etag, s) w =
          let (kept, same) =
            apply_edit-IsApplied st from_utf8 from_str rfc3339 into_bytes tick
              (upload_prefix upload_id) req.files _ written pod.store s etag w in
          (
            written,
            s,
            a,
            b,
            c,
            edited_pending-IsEditedUpload req (
                files_before st from_utf8 from_str rfc3339 into_bytes tick (upload_prefix upload_id)
                  pod),
            entries-HasEntries st from_utf8 from_str rfc3339 into_bytes tick
                (upload_prefix upload_id) req.files pod written refl,
            (
              kept,
              λ i n. same i (
                  none_dropped st from_utf8 from_str rfc3339 into_bytes tick
                    (upload_prefix upload_id) req.files pod n),
            ),
            refl,
          )
