-- ===== src/Verify.antt =====
-- backend/src/routes/admin.rs: the checksum verification of a pending upload, over the streams of
-- backend/src/s3.rs. What the service answers for each key (`Serve`), reading UTF-8 and TOML, and the hex
-- digits of a SHA-256 digest are arguments.
pub mod Tallies
pub mod Report
pub mod Tail
mod Tests
use rawdb.Base.{
  ℕ, zero, suc, ◌+◌, Bool, true, false, Option, none, some, List, [], ◌∷◌, ◌++◌, Text, codes,
  length, eqb, map_err, eq_ignore_ascii_case, Result, ok, err, ◌>>=◌, if◌then◌else◌,
}
use rawdb.Error.{AppError, not_found, bad_request, other, meta_not_utf8, invalid_meta}
use rawdb.S3.{S3, S3Error, Bytes}
use rawdb.S3.Download.{Serve, stream_loop, max_retries}
use rawdb.Meta.{FileMeta, RawdbMeta, parse}
use rawdb.Scanner.{pending_prefix, meta_file}

pub record VerifyFile : Type 0 where
  pub path : Text
  pub status : Text
  pub claimed : Option Text
  pub computed : Option Text

pub record VerifyResult : Type 0 where
  pub is_ok : Bool
  pub total : ℕ
  pub verified : ℕ
  pub mismatched : ℕ
  pub missing : ℕ
  pub files : List VerifyFile

-- the variables of the loop
pub record Tally : Type 0 where
  pub verified : ℕ
  pub mismatched : ℕ
  pub missing : ℕ
  pub out : List VerifyFile

-- `NotFound` and `PreconditionFailed` are a missing upload
abbrev pub read_error : S3Error → AppError
read_error (S3Error.not_found k) = not_found
read_error S3Error.precondition_failed = not_found
read_error S3Error.other = other

abbrev pub verify_file : Text → Option Text → Text → Text → VerifyFile
verify_file path claimed status computed = record {
  path = path;
  status = status;
  claimed = claimed;
  computed = some computed;
}

-- the comparison with the claim, which also counts
unfoldable pub compared : Text → Option Text → Text → Tally → Tally
unfolding eq_ignore_ascii_case
compared path none computed t = record t {
  missing = t.missing + 1;
  out = t.out ++ verify_file path none (codes "missing") computed ∷ [];
}
compared path (some c) computed t =
    if eq_ignore_ascii_case c computed
    then record t {
      verified = t.verified + 1;
      out = t.out ++ verify_file path (some c) (codes "ok") computed ∷ [];
    }
    else record t {
      mismatched = t.mismatched + 1;
      out = t.out ++ verify_file path (some c) (codes "mismatch") computed ∷ [];
    }

abbrev pub compare_file : FileMeta → Text → Tally → Tally
compare_file f computed t = compared f.path f.sha256 computed t

module _ (serve : Text → Serve) (sha256_hex : Bytes → Text) where
  -- the stream of one file; unlike `download_to_file`, no length says when it is complete
  unfoldable pub hash_file : Text → Result AppError Text
  unfolding stream_loop
  hash_file key = do
    body ← map_err read_error (stream_loop (λ file. false) (serve key) max_retries 0 [])
    ok (sha256_hex body)

  unfoldable pub verify_files : Text → List FileMeta → Tally → Result AppError Tally
  unfolding hash_file compared
  verify_files prefix [] t = ok t
  verify_files prefix (f ∷ fs) t = do
    computed ← hash_file (prefix ++ f.path)
    verify_files prefix fs (compare_file f computed t)

abbrev pub no_files : Tally
no_files = record { verified = 0; mismatched = 0; missing = 0; out = [] }

abbrev pub verify_result : List FileMeta → Tally → VerifyResult
verify_result declared t = record {
  is_ok = eqb t.mismatched 0;
  total = length declared;
  verified = t.verified;
  mismatched = t.mismatched;
  missing = t.missing;
  files = t.out;
}

-- a strict read of the meta, with the errors that `verify_pending` and `approve_pending` answer
unfoldable pub decode_meta :
    (Bytes → Option Text) → (Text → Option RawdbMeta) → Bytes → Result AppError RawdbMeta
decode_meta from_utf8 from_str bytes = elim (from_utf8 bytes) [
  | none ↦ err (bad_request meta_not_utf8)
  | some s ↦ map_err (λ e. bad_request invalid_meta) (parse from_str s)
]

unfoldable pub load_meta :
    {St : Type 0}
    → S3 St
    → (Bytes → Option Text)
    → (Text → Option RawdbMeta)
    → Text
    → St
    → Result AppError RawdbMeta
unfolding decode_meta
load_meta s3 from_utf8 from_str key s = do
  (bytes, etag) ← map_err read_error (s3.get_bytes key s)
  decode_meta from_utf8 from_str bytes

abbrev pub upload_prefix : Text → Text
upload_prefix upload_id = pending_prefix ++ upload_id ++ b'/' ∷ []

unfoldable pub verify_pending :
    {St : Type 0}
    → S3 St
    → (Bytes → Option Text)
    → (Text → Option RawdbMeta)
    → (Text → Serve)
    → (Bytes → Text)
    → Text
    → St
    → Result AppError VerifyResult
unfolding load_meta verify_files
verify_pending s3 from_utf8 from_str serve sha256_hex upload_id s = do
  parsed ← load_meta s3 from_utf8 from_str (upload_prefix upload_id ++ meta_file) s
  t ← verify_files serve sha256_hex (upload_prefix upload_id) parsed.files no_files
  ok (verify_result parsed.files t)
