-- ===== src/Upload.antt =====
-- backend/src/routes/upload.rs: the checks on upload ids, paths and file types.
-- The handlers are in the modules below: Begin, Parts (multipart plans) and Complete.
mod Tests
pub mod Parts
pub mod Begin
pub mod Plans
pub mod Complete
pub mod Commit
pub mod Receive
use rawdb.Base.{
  ℕ, Bool, true, false, not, ◌||◌, Option, none, some, List, [], ◌∷◌, ◌++◌, Text, codes, ◌==◌, any,
  is_empty, contains, contains_dotdot, starts_with, split, rsplit_next, rsplit_once,
  to_ascii_lowercase, len, eqb, Result, ok, err, if◌then◌else◌,
}
use rawdb.Error.{AppError, bad_request, bad_upload_id, invalid_path, missing_category}

unfoldable pub validate_upload_id : Text → Result AppError (Unit {0})
validate_upload_id id =
    if not (eqb (len id) 25) || not (contains b'-' id)
    then err (bad_request bad_upload_id)
    else ok tt

unfoldable pub validate_rel_path : Text → Result AppError (Unit {0})
validate_rel_path path =
    if is_empty path
      || starts_with b'/' path
      || contains_dotdot path
      || any is_empty (split b'/' path)
    then err (bad_request (invalid_path path))
    else if not (contains b'/' path)
    then err (bad_request (missing_category path))
    else ok tt

-- The lowercased extension, if it stands on the denylist.
unfoldable pub blocked_extension : Text → List Text → Option Text
blocked_extension path blocked = elim (rsplit_once b'.' (rsplit_next b'/' path)) [
  | none ↦ none
  | some (stem, e) ↦
      let ext = to_ascii_lowercase e in if any (λ b. b == ext) blocked then some ext else none
]

abbrev pub pending_key : Text → Text → Text
pending_key upload_id rel = codes "pending/" ++ upload_id ++ codes "/" ++ rel
