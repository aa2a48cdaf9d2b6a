-- ===== src/Upload/Complete.antt =====
-- `complete` of backend/src/routes/upload.rs. Reading TOML, printing a timestamp and UTF-8 encoding are
-- arguments, and so is the body of a tick. Between its two requests no other instance writes.
use rawdb.Base.{
  ℕ, false, not, ◌||◌, Option, none, some, List, [], ◌∷◌, ◌++◌, Text, codes, ◌==◌, is_empty, trim,
  strip_prefix, lookup, insert, ltb, Result, ok, err, if◌then◌else◌,
}
use rawdb.Error.{
  AppError, bad_request, payload_too_large, other, maker_model_required, invalid_meta,
  meta_mismatch, not_allowed, declared_missing, too_large,
}
use rawdb.S3.{S3, S3Error, ObjectInfo, Bytes}
use rawdb.Meta.{DateTime, FileMeta, RawdbMeta, parse}
use rawdb.Meta.Quote.{to_toml}
use rawdb.State.{Pod, refresh_one_pending, upload_created}
use rawdb.SyncTick.{Domain, pending, bump}
use rawdb.Upload.{validate_upload_id, blocked_extension, pending_key}
use rawdb.Upload.Begin.{UploadConfig}

pub record CompleteRequest : Type 0 where
  pub maker : Text
  pub model : Text
  pub upload_id : Text
  pub meta_toml : Text

-- what only reviewers and the server may set
unfoldable pub cleared : RawdbMeta → RawdbMeta
cleared meta = record meta {
  set = record meta.set {
    special = false;
    approved_at = none;
    approved_by = none;
    approved_initial_at = none;
    approved_initial_by = none;
  };
}

unfoldable pub check_types : List Text → List FileMeta → Result AppError (Unit {0})
check_types blocked [] = ok tt
check_types blocked (f ∷ fs) =
    let rest = check_types blocked fs in
    elim (blocked_extension f.path blocked) [
      | some ext ↦ err (bad_request (not_allowed ext f.path))
      | none ↦ rest
    ]

-- the checks on the parsed meta
unfoldable pub accept : UploadConfig → CompleteRequest → RawdbMeta → Result AppError RawdbMeta
unfolding cleared check_types
accept cfg req parsed =
    if not (parsed.set.maker == req.maker) || not (parsed.set.model == req.model)
    then err (bad_request meta_mismatch)
    else elim (check_types cfg.blocked_extensions parsed.files) [
      | err e ↦ err e
      | ok u ↦ ok (cleared parsed)
    ]

-- the checks that need no request to the service, and the meta that will be written
unfoldable pub prepare :
    (Text → Option RawdbMeta) → UploadConfig → CompleteRequest → Result AppError RawdbMeta
unfolding accept
prepare from_str cfg req =
    if is_empty (trim req.maker) || is_empty (trim req.model)
    then err (bad_request maker_model_required)
    else elim (validate_upload_id req.upload_id) [
      | err e ↦ err e
      | ok u ↦ elim (parse from_str req.meta_toml) [
        | err e ↦ err (bad_request invalid_meta)
        | ok parsed ↦ accept cfg req parsed
      ]
    ]

-- the map `present`
unfoldable pub receive : Text → ObjectInfo → List (Text × ℕ) → List (Text × ℕ)
receive prefix o present = elim (strip_prefix prefix o.key) [
  | none ↦ present
  | some rel ↦ insert rel o.size present
]

unfoldable pub received : Text → List ObjectInfo → List (Text × ℕ) → List (Text × ℕ)
unfolding receive
received prefix [] present = present
received prefix (o ∷ os) present = received prefix os (receive prefix o present)

unfoldable pub check_received : ℕ → List (Text × ℕ) → List FileMeta → Result AppError (Unit {0})
check_received max present [] = ok tt
check_received max present (f ∷ fs) =
    let rest = check_received max present fs in
    elim (lookup f.path present) [
      | none ↦ err (bad_request (declared_missing f.path))
      | some n ↦ if ltb max n then err (payload_too_large (too_large f.path n max)) else rest
    ]

module _ {St : Type 0} (s3 : S3 St) (from_str : Text → Option RawdbMeta) (rfc3339 : DateTime → Text)
    (into_bytes : Text → Bytes) (tick : Domain → Bytes) where
  unfoldable pub check_objects : UploadConfig → Text → RawdbMeta → St → Result AppError (Unit {0})
  unfolding received check_received
  check_objects cfg upload_id parsed s = elim (s3.list_objects (pending_key upload_id []) s) [
    | err e ↦ err other
    | ok objects ↦
        check_received cfg.max_upload_bytes (received (pending_key upload_id []) objects [])
          parsed.files
  ]

  -- after the write of the meta: the task, the event and the tick
  unfoldable pub commit :
      CompleteRequest
      → Text
      → Pod St
      → Result S3Error Text × St
      → Result AppError (Unit {0}) × Pod St
  commit req by pod (err e, s) = (err other, record pod { store = s })
  commit req by pod (ok etag, s) = (
    ok tt,
    bump s3 tick (pending ∷ []) (record pod {
      store = s;
      jobs = pod.jobs ++ refresh_one_pending req.upload_id ∷ [];
      events = pod.events ++ upload_created req.maker req.model by ∷ [];
    }),
  )

  unfoldable pub complete :
      UploadConfig → Text → CompleteRequest → Pod St → Result AppError (Unit {0}) × Pod St
  unfolding prepare check_objects commit
  complete cfg by req pod = elim (prepare from_str cfg req) [
    | err e ↦ (err e, pod)
    | ok parsed ↦ elim (check_objects cfg req.upload_id parsed pod.store) [
      | err e ↦ (err e, pod)
      | ok u ↦ commit req by pod (
          s3.put_bytes (pending_key req.upload_id (codes "rawdb-meta.toml"))
            (into_bytes (to_toml rfc3339 parsed)) none none pod.store)
    ]
  ]
