-- ===== src/Upload/Receive.antt =====
-- backend/src/routes/upload.rs: the handlers `stream`, `multipart_complete` and `multipart_abort`. The two
-- multipart requests to the service are arguments.
use rawdb.Base.{ℕ, none, List, [], ◌∷◌, Text, length, ltb, Result, ok, err, if◌then◌else◌}
use rawdb.Error.{AppError, forbidden, bad_request, payload_too_large, no_parts, body_too_large}
use rawdb.Action.{Action, lift, ◌>>=◌, ◌>>◌, pure}
use rawdb.S3.{S3, S3Error, Bytes}
use rawdb.State.{with_store, Pod}
use rawdb.Upload.{validate_upload_id, validate_rel_path, pending_key}
use rawdb.Upload.Begin.{UploadMode, UploadConfig}

pub record MultipartPartInput : Type 0 where
  pub part_number : ℕ
  pub etag : Text

pub record MultipartCompleteRequest : Type 0 where
  pub upload_id : Text
  pub path : Text
  pub s3_upload_id : Text
  pub parts : List MultipartPartInput

pub record MultipartAbortRequest : Type 0 where
  pub upload_id : Text
  pub path : Text
  pub s3_upload_id : Text

abbrev pub streams : UploadMode → Result AppError (Unit {0})
streams UploadMode.presigned = err forbidden
streams UploadMode.stream = ok tt
streams UploadMode.either = ok tt

abbrev pub fits : ℕ → Bytes → Result AppError (Unit {0})
fits max body =
    if ltb max (length body) then err (payload_too_large (body_too_large max)) else ok tt

abbrev pub some_parts : List MultipartPartInput → Result AppError (Unit {0})
some_parts [] = err (bad_request no_parts)
some_parts (p ∷ ps) = ok tt

module _ {St : Type 0} where
  unfoldable pub stream : S3 St → UploadConfig → Text → Text → Bytes → Action (Pod St) (Unit {0})
  unfolding validate_upload_id validate_rel_path ◌>>=◌
  stream s3 cfg upload_id file_path body = do
    lift (streams cfg.upload_mode)
    lift (validate_upload_id upload_id)
    lift (validate_rel_path file_path)
    lift (fits cfg.max_upload_bytes body)
    etag ← with_store (s3.put_bytes (pending_key upload_id file_path) body none none)
    pure tt

  -- the service assembles the parts: key, multipart upload, parts
  unfoldable pub multipart_complete :
      (Text → Text → List MultipartPartInput → St → Result S3Error (Unit {0}) × St)
      → MultipartCompleteRequest
      → Action (Pod St) (Unit {0})
  unfolding validate_upload_id validate_rel_path ◌>>=◌
  multipart_complete complete_multipart_upload req = do
    lift (validate_upload_id req.upload_id)
    lift (validate_rel_path req.path)
    lift (some_parts req.parts)
    with_store
        (complete_multipart_upload (pending_key req.upload_id req.path) req.s3_upload_id req.parts)

  unfoldable pub multipart_abort :
      (Text → Text → St → Result S3Error (Unit {0}) × St)
      → MultipartAbortRequest
      → Action (Pod St) (Unit {0})
  unfolding validate_upload_id validate_rel_path ◌>>=◌
  multipart_abort abort_multipart_upload req = do
    lift (validate_upload_id req.upload_id)
    lift (validate_rel_path req.path)
    with_store (abort_multipart_upload (pending_key req.upload_id req.path) req.s3_upload_id)
