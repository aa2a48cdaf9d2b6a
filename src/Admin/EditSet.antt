-- ===== src/Admin/EditSet.antt =====
-- backend/src/routes/admin.rs: `edit_pending` and `edit_set`, over the objects of the service. The refresh of the cache is
-- that of backend/src/cache/scanner.rs, which the handlers wait for.
use rawdb.Base.{
  Bool, true, false, ◌||◌, Option, List, [], ◌∷◌, ◌++◌, Text, ◌==◌, eqb, ltb, any, is_empty, trim,
  Result, ok, err, ◌>>=◌, ◌>>◌, if◌then◌else◌,
}
use rawdb.Error.{AppError, bad_request, other, maker_model_required, edit_removes}
use rawdb.S3.{S3, S3Error, Bytes}
use rawdb.Meta.{SetMeta, RawdbMeta, DateTime}
use rawdb.Cache.{get_set}
use rawdb.State.{Pod}
use rawdb.SyncTick.{Domain, sets, bump}
use rawdb.Scanner.{meta_file}
use rawdb.Scanner.Pass.{refresh_one_set, refresh_one_pending}
use rawdb.Verify.{upload_prefix}
use rawdb.Admin.Objects.{set_prefix, read_strict, put_meta}
use rawdb.Admin.Remove.{at_once, known_set}
use rawdb.Admin.Edit.{
  EditFile, EditRequest, EditSetRequest, Existing, check_paths, by_path, edited_pending, edited_set,
}

-- `contains` on the sets of the destinations and of the old paths
abbrev pub is_destination : List EditFile → Text → Bool
is_destination files path = any (λ f. f.path == path) files

abbrev pub is_referenced : List EditFile → Text → Bool
is_referenced files path = any (λ f. f.old_path == path) files

-- the best-effort read: whatever is wrong, the map is empty
abbrev pub files_of : Result AppError RawdbMeta → Existing
files_of (err e) = []
files_of (ok meta) = by_path meta.files []

-- the files of the map that the request neither keeps nor overwrites
unfoldable pub dropped : Text → List EditFile → Existing → List Text
dropped prefix files [] = []
dropped prefix files (slot ∷ known) =
    let rest = dropped prefix files known in
    if is_referenced files slot.0 || is_destination files slot.0
    then rest
    else (prefix ++ slot.0) ∷ rest

-- the order of `str`
unfoldable pub text_le : Text → Text → Bool
text_le [] t = true
text_le (c ∷ s) [] = false
text_le (c ∷ s) (d ∷ t) = if ltb c d then true else if eqb c d then text_le s t else false

unfoldable pub insert_sorted : Text → List Text → List Text
insert_sorted p [] = p ∷ []
insert_sorted p (q ∷ qs) = if text_le p q then p ∷ q ∷ qs else q ∷ insert_sorted p qs

-- the files of the map that the request does not keep, sorted
unfoldable pub missing_files : List EditFile → Existing → List Text
unfolding insert_sorted
missing_files files [] = []
missing_files files (slot ∷ known) =
    let rest = missing_files files known in
    if is_referenced files slot.0 then rest else insert_sorted slot.0 rest

abbrev pub none_missing : List Text → Result AppError (Unit {0})
none_missing [] = ok tt
none_missing (p ∷ ps) = err (bad_request (edit_removes (p ∷ ps)))

module _ {St : Type 0} (s3 : S3 St) (from_utf8 : Bytes → Option Text)
    (from_str : Text → Option RawdbMeta) (rfc3339 : DateTime → Text) (into_bytes : Text → Bytes)
    (tick : Domain → Bytes) where
  unfoldable pub load_existing_file_meta : Text → St → Existing
  unfolding read_strict by_path
  load_existing_file_meta prefix s = elim (s3.get_bytes (prefix ++ meta_file) s) [
    | err e ↦ []
    | ok (bytes, etag) ↦ files_of (read_strict from_utf8 from_str bytes)
  ]

  -- the copies of the renamed files; the answer is what is to be deleted afterwards
  unfoldable pub move_files :
      Text → List EditFile → List EditFile → List Text → St → Result S3Error (List Text) × St
  move_files prefix all [] to_delete s = (ok to_delete, s)
  move_files prefix all (f ∷ fs) to_delete s =
      let out = s3.copy (prefix ++ f.old_path) (prefix ++ f.path) s in
      let kept = move_files prefix all fs to_delete s in
      let copied : Result S3Error (List Text) × St = elim out.0 [
        | err e ↦ (err e, out.1)
        | ok u ↦
            move_files prefix all fs
              (if is_destination all f.old_path
                then to_delete
                else to_delete ++ (prefix ++ f.old_path) ∷ [])
              out.1
      ] in
      if f.old_path == f.path then kept else copied

  unfoldable pub delete_keys : List Text → St → Result S3Error (Unit {0}) × St
  delete_keys [] s = (ok tt, s)
  delete_keys (k ∷ ks) s =
      let out = s3.delete k s in elim out.0 [ err e ↦ (err e, out.1) | ok u ↦ delete_keys ks out.1 ]

  -- the moves, the deletes and the write of the meta, up to the first failure
  abbrev pub put_after :
      Text → RawdbMeta → Result S3Error (Unit {0}) × St → Result S3Error Text × St
  put_after prefix meta (err e, s) = (err e, s)
  put_after prefix meta (ok u, s) = put_meta s3 rfc3339 into_bytes prefix meta s

  abbrev pub delete_after :
      Text → RawdbMeta → List Text → Result S3Error (List Text) × St → Result S3Error Text × St
  delete_after prefix meta more (err e, s) = (err e, s)
  delete_after prefix meta more (ok keys, s) = put_after prefix meta (delete_keys (keys ++ more) s)

  unfoldable pub apply_edit :
      Text → List EditFile → List Text → RawdbMeta → St → Result S3Error Text × St
  unfolding move_files delete_keys put_meta
  apply_edit prefix files more meta s =
      delete_after prefix meta more (move_files prefix files files [] s)

  -- the end of `edit_pending`
  abbrev pub edited_upload :
      Text → Pod St → Result S3Error Text × St → Result AppError (Unit {0}) × Pod St
  edited_upload upload_id pod (err e, s) = (err other, record pod { store = s })
  edited_upload upload_id pod (ok etag, s) = (
    ok tt,
    record pod {
      store = s;
      cache = (refresh_one_pending s3 from_utf8 from_str (at_once s) upload_id pod.cache).1;
    },
  )

  unfoldable pub check_edit : List Text → EditRequest → Result AppError (Unit {0})
  unfolding check_paths
  check_edit blocked req =
      if is_empty (trim req.maker) || is_empty (trim req.model)
      then err (bad_request maker_model_required)
      else check_paths blocked [] req.files

  unfoldable pub edit_pending :
      List Text → Text → EditRequest → Pod St → Result AppError (Unit {0}) × Pod St
  unfolding check_edit load_existing_file_meta dropped edited_pending apply_edit
  edit_pending blocked upload_id req pod = elim (check_edit blocked req) [
    | err e ↦ (err e, pod)
    | ok u ↦
        let known = load_existing_file_meta (upload_prefix upload_id) pod.store in
        edited_upload upload_id pod (
          apply_edit (upload_prefix upload_id) req.files
            (dropped (upload_prefix upload_id) req.files known) (edited_pending req known)
            pod.store)
  ]

  -- the end of `edit_set`
  abbrev pub edited_sample :
      Text → Text → Pod St → Result S3Error Text × St → Result AppError (Unit {0}) × Pod St
  edited_sample maker model pod (err e, s) = (err other, record pod { store = s })
  edited_sample maker model pod (ok etag, s) = (
    ok tt,
    bump s3 tick (sets ∷ []) (record pod {
      store = s;
      cache = (refresh_one_set s3 from_utf8 from_str (at_once s) maker model pod.cache).1;
    }),
  )

  unfoldable pub check_set_edit :
      List Text → Text → Text → EditSetRequest → Pod St → Result AppError SetMeta
  unfolding check_paths get_set load_existing_file_meta missing_files
  check_set_edit blocked maker model req pod = do
    row ← known_set (get_set maker model pod.cache)
    check_paths blocked [] req.files
    none_missing
        (missing_files req.files (load_existing_file_meta (set_prefix maker model) pod.store))
    ok row

  unfoldable pub edit_set :
      List Text → Text → Text → EditSetRequest → Pod St → Result AppError (Unit {0}) × Pod St
  unfolding check_set_edit load_existing_file_meta edited_set apply_edit
  edit_set blocked maker model req pod = elim (check_set_edit blocked maker model req pod) [
    | err e ↦ (err e, pod)
    | ok row ↦ edited_sample maker model pod (
        apply_edit (set_prefix maker model) req.files []
          (edited_set maker model row req
            (load_existing_file_meta (set_prefix maker model) pod.store))
          pod.store)
  ]
