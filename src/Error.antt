-- ===== src/Error.antt =====
-- backend/src/error.rs: the error type of the handlers and the status it is answered with.
use rawdb.Base.{ℕ, List, Text}

-- The message of a client error, one constructor for each text or format string of the handlers.
pub data Reason : Type 0 where
  invalid_file_path maker_model_required no_files no_parts bad_upload_id meta_mismatch
        nothing_selected :
      Reason
  bad_conflict_mode last_file invalid_meta meta_not_utf8 sub_required bootstrap_no_key : Reason
  invalid_path missing_category duplicate_path declared_missing unknown_role : Text → Reason
  already_approved : Text → Text → Reason
  concurrent_edit : Reason
  not_allowed : Text → Text → Reason
  too_large : Text → ℕ → ℕ → Reason
  body_too_large : ℕ → Reason
  edit_removes : List Text → Reason

pub data AppError : Type 0 where
  not_found forbidden unauthorized : AppError
  conflict bad_request payload_too_large unprocessable : Reason → AppError
  too_many_requests : (retry_after_secs : ℕ) → AppError
  -- `anyhow::Error`, whose text is only logged
  other : AppError

-- `into_response`: the status code
unfoldable pub status : AppError → ℕ
status not_found = 404
status forbidden = 403
status unauthorized = 401
status (conflict m) = 409
status (bad_request m) = 400
status (payload_too_large m) = 413
status (unprocessable m) = 422
status (too_many_requests s) = 429
status other = 500
