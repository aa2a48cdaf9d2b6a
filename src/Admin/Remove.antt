-- ===== src/Admin/Remove.antt =====
-- backend/src/routes/admin.rs: `delete_set_file`, with the refresh of the cache that it waits for (of
-- backend/src/cache/scanner.rs; no other instance writes while it reads the set).
use rawdb.Base.{
  not, Option, none, some, List, [], ◌∷◌, ◌++◌, Text, ◌==◌, retain, length, eqb, contains_dotdot,
  Result, ok, err, map_err, ◌>>=◌, ◌>>◌, if◌then◌else◌,
}
use rawdb.Error.{AppError, not_found, bad_request, other, invalid_file_path, last_file}
use rawdb.S3.{S3, S3Error, Bytes}
use rawdb.Meta.{SetMeta, FileMeta, RawdbMeta, DateTime}
use rawdb.Cache.{get_set}
use rawdb.State.{Pod}
use rawdb.SyncTick.{Domain, sets, bump}
use rawdb.Scanner.{Moments, meta_file}
use rawdb.Scanner.Pass.{refresh_one_set}
use rawdb.Verify.{read_error}
use rawdb.Admin.Objects.{set_prefix, read_strict, put_meta}

abbrev pub at_once : {St : Type 0} → St → Moments St
at_once s = record { at_head = s; at_get = s; at_list = s }

abbrev pub known_set : Option SetMeta → Result AppError SetMeta
known_set none = err not_found
known_set (some row) = ok row

-- `retain` and the two checks after it
abbrev pub nonempty : RawdbMeta → List FileMeta → Result AppError RawdbMeta
nonempty parsed [] = err (bad_request last_file)
nonempty parsed (f ∷ fs) = ok (record parsed { files = f ∷ fs })

unfoldable pub without_file : Text → RawdbMeta → Result AppError RawdbMeta
without_file path parsed =
    let kept = retain (λ f. not (f.path == path)) parsed.files in
    if eqb (length kept) (length parsed.files) then err not_found else nonempty parsed kept

module _ {St : Type 0} (s3 : S3 St) (from_utf8 : Bytes → Option Text)
    (from_str : Text → Option RawdbMeta) (rfc3339 : DateTime → Text) (into_bytes : Text → Bytes)
    (tick : Domain → Bytes) where
  -- up to the meta that is to be written
  unfoldable pub remaining : Text → Text → Text → Pod St → Result AppError RawdbMeta
  unfolding get_set read_strict without_file
  remaining maker model path pod = do
    if contains_dotdot path then err (bad_request invalid_file_path) else ok tt
    row ← known_set (get_set maker model pod.cache)
    (bytes, etag) ←
        map_err read_error (s3.get_bytes (set_prefix maker model ++ meta_file) pod.store)
    parsed ← read_strict from_utf8 from_str bytes
    without_file path parsed

  -- the refresh, whose result is ignored, and the tick
  abbrev pub refreshed : Text → Text → Pod St → Result AppError (Unit {0}) × Pod St
  refreshed maker model pod = (
    ok tt,
    bump s3 tick (sets ∷ []) (record pod {
      cache = (refresh_one_set s3 from_utf8 from_str (at_once pod.store) maker model pod.cache).1;
    }),
  )

  -- the meta first, then the object
  abbrev pub deleted :
      Text → Text → Pod St → Result S3Error (Unit {0}) × St → Result AppError (Unit {0}) × Pod St
  deleted maker model pod (err e, s) = (err other, record pod { store = s })
  deleted maker model pod (ok u, s) = refreshed maker model (record pod { store = s })

  abbrev pub rewritten :
      Text → Text → Text → Pod St → Result S3Error Text × St → Result AppError (Unit {0}) × Pod St
  rewritten maker model path pod (err e, s) = (err other, record pod { store = s })
  rewritten maker model path pod (ok etag, s) =
      deleted maker model pod (s3.delete (set_prefix maker model ++ path) s)

  unfoldable pub delete_set_file : Text → Text → Text → Pod St → Result AppError (Unit {0}) × Pod St
  unfolding remaining put_meta
  delete_set_file maker model path pod = elim (remaining maker model path pod) [
    | err e ↦ (err e, pod)
    | ok meta ↦
        rewritten maker model path pod
          (put_meta s3 rfc3339 into_bytes (set_prefix maker model) meta pod.store)
  ]
