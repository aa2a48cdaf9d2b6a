-- ===== src/Upload/Begin.antt =====
-- `begin` of backend/src/routes/upload.rs. The upload id that the server mints (a time and a
-- random number) is an argument. The counter of uploaded samples is a metric and left out.
use rawdb.Base.{
  ℕ, zero, suc, ◌+◌, ◌||◌, Option, none, some, List, [], ◌∷◌, ◌++◌, Text, codes, is_empty, trim,
  insert, ltb, leb, Result, ok, err, if◌then◌else◌,
}
use rawdb.Error.{
  AppError, bad_request, payload_too_large, other, maker_model_required, no_files, not_allowed,
  too_large,
}
use rawdb.Action.{Action, pure, lift, ◌>>=◌, ◌>>◌}
use rawdb.S3.{S3, S3Error}
use rawdb.Upload.{validate_rel_path, blocked_extension, pending_key}
use rawdb.Upload.Parts.{eff_part, part_count}

pub data UploadMode : Type 0 where
  presigned stream either : UploadMode

pub record UploadConfig : Type 0 where
  pub blocked_extensions : List Text
  pub max_upload_bytes : ℕ
  pub upload_mode : UploadMode
  pub multipart_part_size : ℕ

pub record BeginFile : Type 0 where
  pub path : Text
  pub size : ℕ

pub record BeginRequest : Type 0 where
  pub maker : Text
  pub model : Text
  pub files : List BeginFile

pub record PartPlan : Type 0 where
  pub part_number : ℕ
  pub url : Text

pub data FilePlan : Type 0 where
  single : (url : Text) → FilePlan
  multipart : (s3_upload_id : Text) (part_size : ℕ) → List PartPlan → FilePlan

pub record BeginResponse : Type 0 where
  pub upload_id : Text
  pub mode : Text
  pub files : List (Text × FilePlan)
  pub stream_base : Option Text

-- `map_err(AppError::Other)`
abbrev internal {ℓ} : {A : Type ℓ} → Result S3Error A → Result AppError A
internal (ok a) = ok a
internal (err e) = err other

unfoldable pub check_file : UploadConfig → BeginFile → Result AppError (Unit {0})
check_file cfg f = elim (validate_rel_path f.path) [
  | err e ↦ err e
  | ok u ↦ elim (blocked_extension f.path cfg.blocked_extensions) [
    | some ext ↦ err (bad_request (not_allowed ext f.path))
    | none ↦
        if ltb cfg.max_upload_bytes f.size
        then err (payload_too_large (too_large f.path f.size cfg.max_upload_bytes))
        else ok tt
  ]
]

unfoldable pub check_files : UploadConfig → List BeginFile → Result AppError (Unit {0})
check_files cfg [] = ok tt
check_files cfg (f ∷ fs) = elim (check_file cfg f) [ err e ↦ err e | ok u ↦ check_files cfg fs ]

abbrev mode_str : UploadMode → Text
mode_str presigned = codes "presigned"
mode_str stream = codes "stream"
mode_str either = codes "either"

abbrev stream_base_of : UploadMode → Text → Option Text
stream_base_of presigned upload_id = none
stream_base_of _ upload_id = some (codes "/api/upload/stream/" ++ upload_id)

unfoldable pub check_request : UploadConfig → BeginRequest → Result AppError (Unit {0})
check_request cfg req =
    if is_empty (trim req.maker) || is_empty (trim req.model)
    then err (bad_request maker_model_required)
    else elim req.files [ [] ↦ err (bad_request no_files) | f ∷ fs ↦ check_files cfg (f ∷ fs) ]

module _ {St : Type 0} (s3 : S3 St) where
  -- `for n in 1..=part_count`, from part `n` on, with `left` parts to go
  unfoldable pub plan_parts : Text → Text → ℕ → ℕ → Action St (List PartPlan)
  plan_parts key id n zero = pure []
  plan_parts key id n (suc left) = do
    url ← λ s. (internal (s3.presign_upload_part key id n s), s)
    rest ← plan_parts key id (n + 1) left
    pure (record { part_number = n; url = url } ∷ rest)

  unfoldable pub plan_single : Text → Action St FilePlan
  plan_single key = do url ← λ s. (internal (s3.presign_put key s), s); pure (single url)

  unfoldable pub plan_multipart : ℕ → Text → BeginFile → Action St FilePlan
  unfolding plan_parts
  plan_multipart part_size key f = do
    id ← λ s. let (r, s') = s3.create_multipart_upload key s in (internal r, s')
    parts ← plan_parts key id 1 (part_count part_size f.size)
    pure (multipart id (eff_part part_size f.size) parts)

  unfoldable pub plan_file : ℕ → Text → BeginFile → Action St FilePlan
  unfolding plan_single plan_multipart
  plan_file part_size upload_id f =
      let key = pending_key upload_id f.path in
      if leb f.size part_size then plan_single key else plan_multipart part_size key f

  unfoldable pub plan_files :
      ℕ → Text → List (Text × FilePlan) → List BeginFile → Action St (List (Text × FilePlan))
  plan_files part_size upload_id files [] = pure files
  plan_files part_size upload_id files (f ∷ fs) = do
    plan ← plan_file part_size upload_id f
    plan_files part_size upload_id (insert f.path plan files) fs

  -- the plans of the modes with presigned URLs
  unfoldable pub plans : UploadConfig → Text → List BeginFile → Action St (List (Text × FilePlan))
  plans cfg upload_id fs = elim cfg.upload_mode [
    | stream ↦ pure []
    | _ ↦ plan_files cfg.multipart_part_size upload_id [] fs
  ]

  unfoldable pub begin : UploadConfig → Text → BeginRequest → Action St BeginResponse
  begin cfg upload_id req = do
    lift (check_request cfg req)
    files ← plans cfg upload_id req.files
    pure (record {
      upload_id = upload_id;
      mode = mode_str cfg.upload_mode;
      files = files;
      stream_base = stream_base_of cfg.upload_mode upload_id;
    })
