-- ===== src/Admin/Selection.antt =====
-- backend/src/routes/admin.rs: what `approve_pending` reads and checks before it changes anything.
use rawdb.Base.{
  Bool, ◌||◌, Option, none, some, List, [], ◌∷◌, ◌++◌, Text, codes, ◌==◌, any, retain, Result, ok,
  err, ◌>>=◌, ◌>>◌, if◌then◌else◌,
}
use rawdb.Error.{AppError, bad_request, other, bad_conflict_mode, nothing_selected}
use rawdb.S3.{S3, Bytes, HeadInfo}
use rawdb.Meta.{FileMeta, RawdbMeta, DateTime}
use rawdb.Scanner.{meta_file}
use rawdb.Verify.{load_meta, upload_prefix}

pub record ApproveRequest : Type 0 where
  pub conflict : Option Text
  pub files : List Text

-- `unwrap_or("refuse")`
abbrev pub conflict_mode : Option Text → Text
conflict_mode none = codes "refuse"
conflict_mode (some mode) = mode

unfoldable pub check_mode : Text → Result AppError (Unit {0})
unfolding ◌==◌
check_mode mode =
    if mode == codes "refuse" || mode == codes "merge" || mode == codes "replace"
    then ok tt
    else err (bad_request bad_conflict_mode)

abbrev pub last_modified_of : Option HeadInfo → Option DateTime
last_modified_of none = none
last_modified_of (some head) = head.last_modified

-- `uploaded_at` of a meta that has none
unfoldable pub pin_date :
    {St : Type 0} → S3 St → Text → St → Option DateTime → Result AppError (Option DateTime)
pin_date s3 key s (some d) = ok (some d)
pin_date s3 key s none = elim (s3.head key s) [
  | err e ↦ err other
  | ok head ↦ ok (last_modified_of head)
]

abbrev pub is_listed : List Text → FileMeta → Bool
is_listed paths f = any (λ p. p == f.path) paths

-- an empty list selects every file
unfoldable pub selected : List Text → List FileMeta → List FileMeta
selected [] files = files
selected (p ∷ ps) files = retain (is_listed (p ∷ ps)) files

abbrev pub nonempty : List FileMeta → Result AppError (List FileMeta)
nonempty [] = err (bad_request nothing_selected)
nonempty (f ∷ fs) = ok (f ∷ fs)

unfoldable pub promotion : List Text → List FileMeta → Result AppError (List FileMeta)
unfolding selected
promotion paths files = nonempty (selected paths files)

module _ {St : Type 0} (s3 : S3 St) (from_utf8 : Bytes → Option Text)
    (from_str : Text → Option RawdbMeta) where
  -- what is read and checked first: the meta, the date of the upload and the files to promote
  unfoldable pub prepare :
      Text → ApproveRequest → St → Result AppError (RawdbMeta × Option DateTime × List FileMeta)
  unfolding check_mode load_meta pin_date promotion
  prepare upload_id req s = do
    check_mode (conflict_mode req.conflict)
    parsed ← load_meta s3 from_utf8 from_str (upload_prefix upload_id ++ meta_file) s
    date ← pin_date s3 (upload_prefix upload_id ++ meta_file) s parsed.set.uploaded_at
    promote ← promotion req.files parsed.files
    ok (parsed, date, promote)
