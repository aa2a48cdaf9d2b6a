-- ===== src/Admin/Approve.antt =====
-- backend/src/routes/admin.rs: `approve_pending`. The time, the identity of the approver, UTF-8, TOML and the
-- body of a tick are arguments.
use rawdb.Base.{
  not, Option, none, some, List, [], ◌∷◌, ◌++◌, Text, codes, ◌==◌, any, retain, Result, ok, err,
  if◌then◌else◌,
}
use rawdb.Error.{AppError, conflict, other, already_approved}
use rawdb.Action.{Action, pure, raise, gets, ◌>>=◌}
use rawdb.S3.{S3, S3Error, Bytes}
use rawdb.Meta.{SetMeta, FileMeta, RawdbMeta, DateTime}
use rawdb.Cache.{get_set}
use rawdb.State.{with_store, Pod, refresh_one_set, refresh_one_pending, set_approved}
use rawdb.SyncTick.{Domain, sets, pending, bump}
use rawdb.Scanner.{meta_file}
use rawdb.Verify.{upload_prefix}
use rawdb.Admin.{delete_prefix}
use rawdb.Admin.Selection.{ApproveRequest, conflict_mode, prepare}
use rawdb.Admin.Objects.{set_prefix, read_strict, copy_files, put_meta}

-- the approval record: the first approval stays as it is in a set that exists
unfoldable pub approved : DateTime → Text → Option SetMeta → SetMeta → SetMeta
approved now by none set = record set {
  approved_at = some now;
  approved_by = some by;
  approved_initial_at = some now;
  approved_initial_by = some by;
}
approved now by (some old) set = record set {
  approved_at = some now;
  approved_by = some by;
  approved_initial_at = old.approved_initial_at;
  approved_initial_by = old.approved_initial_by;
}

-- the files of the set that exists, of which the promoted paths are replaced
unfoldable pub merged_files : List FileMeta → List FileMeta → List FileMeta
merged_files existing promote =
    retain (λ f. not (any (λ g. g.path == f.path) promote)) existing ++ promote

abbrev pub read_existing :
    (Bytes → Option Text)
    → (Text → Option RawdbMeta)
    → Result S3Error (Bytes × Option Text)
    → Result AppError (List FileMeta)
read_existing from_utf8 from_str (err e) = err other
read_existing from_utf8 from_str (ok (bytes, etag)) = elim (read_strict from_utf8 from_str bytes) [
  | err e ↦ err e
  | ok meta ↦ ok meta.files
]

module _ {St : Type 0} (s3 : S3 St) (from_utf8 : Bytes → Option Text)
    (from_str : Text → Option RawdbMeta) (rfc3339 : DateTime → Text) (into_bytes : Text → Bytes)
    (tick : Domain → Bytes) where
  -- what is done with a set that exists; the answer is its files that may be kept
  unfoldable pub resolve : Text → Text → Text → Option SetMeta → Action (Pod St) (List FileMeta)
  unfolding read_strict ◌>>=◌ delete_prefix
  resolve mode maker model none = pure []
  resolve mode maker model (some old) =
      if mode == codes "refuse"
      then raise (conflict (already_approved maker model))
      else if mode == codes "replace"
      then (do deleted ← with_store (delete_prefix s3 (set_prefix maker model)); pure [])
      else gets (λ pod.
        read_existing from_utf8 from_str
          (s3.get_bytes (set_prefix maker model ++ meta_file) pod.store))

  -- the spawned task, the event and the ticks
  abbrev pub announce : Text → Text → Text → Text → Action (Pod St) (Unit {0})
  announce upload_id maker model by pod = (
    ok tt,
    bump s3 tick (pending ∷ sets ∷ []) (record pod {
      jobs = pod.jobs ++ refresh_one_set maker model ∷ refresh_one_pending upload_id ∷ [];
      events = pod.events ++ set_approved maker model by ∷ [];
    }),
  )

  -- from the write of the approved meta on
  unfoldable pub put_and_wipe : Text → Text → RawdbMeta → Action (Pod St) (Unit {0})
  unfolding put_meta delete_prefix ◌>>=◌
  put_and_wipe upload_id by meta = do
    etag ←
        with_store (put_meta s3 rfc3339 into_bytes (set_prefix meta.set.maker meta.set.model) meta)
    deleted ← with_store (delete_prefix s3 (upload_prefix upload_id))
    announce upload_id meta.set.maker meta.set.model by

  -- from the copies on
  unfoldable pub copy_and_put :
      Text → Text → SetMeta → List FileMeta → List FileMeta → Action (Pod St) (Unit {0})
  unfolding copy_files merged_files put_and_wipe ◌>>=◌
  copy_and_put upload_id by set promote existing = do
    copied ←
        with_store
          (copy_files s3 (upload_prefix upload_id) (set_prefix set.maker set.model) promote)
    put_and_wipe upload_id by (record { set = set; files = merged_files existing promote })

  -- from the conflict resolution on
  unfoldable pub promote_files :
      Text → Text → Text → SetMeta → Option SetMeta → List FileMeta → Action (Pod St) (Unit {0})
  unfolding resolve copy_and_put ◌>>=◌
  promote_files mode upload_id by set old promote = do
    existing ← resolve mode set.maker set.model old
    copy_and_put upload_id by set promote existing

  unfoldable pub approve_pending :
      DateTime → Text → Text → ApproveRequest → Action (Pod St) (Unit {0})
  unfolding prepare approved promote_files
  approve_pending now by upload_id req pod =
      elim (prepare s3 from_utf8 from_str upload_id req pod.store) [
        | err e ↦ (err e, pod)
        | ok (parsed, date, promote) ↦
            let old = get_set parsed.set.maker parsed.set.model pod.cache in
            promote_files (conflict_mode req.conflict) upload_id by
              (approved now by old (record parsed.set { uploaded_at = date })) old promote pod
      ]
