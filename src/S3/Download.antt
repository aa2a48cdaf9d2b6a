-- ===== src/S3/Download.antt =====
-- backend/src/s3.rs: `download_to_file`, which resumes a broken stream. What the service answers to
-- the request number `i`, from an offset if there is one, is an argument (`Serve`). Failures of the
-- local disk and the waits between the requests are left out.
use rawdb.Base.{
  ℕ, zero, suc, ◌+◌, Bool, ◌&&◌, Option, none, some, List, [], ◌∷◌, ◌++◌, length, ltb, leb, eqb,
  Result, ok, err, ◌>>=◌, if◌then◌else◌,
}
use rawdb.S3.{Bytes, S3Error, other}

-- how a stream ends
pub data Ending : Type 0 where
  eof broken : Ending

-- the answer to `get_stream_range`, with what `read` then gives
pub data Answer : Type 0 where
  -- `NotFound` or `PreconditionFailed`
  missing : S3Error → Answer
  refused : Answer
  served : List Bytes → Ending → Answer

abbrev pub Serve : Type 0
Serve = ℕ → Option ℕ → Answer

abbrev pub max_retries : ℕ
max_retries = 5

-- `(written > 0).then_some(written)`
abbrev pub start_at : ℕ → Option ℕ
start_at zero = none
start_at (suc n) = some (suc n)

-- The inner loop, which appends to the file; an empty read is the end.
unfoldable pub read_chunks : List Bytes → Ending → Bytes → Bytes × Ending
read_chunks [] end file = (file, end)
read_chunks ([] ∷ cs) end file = (file, eof)
read_chunks ((b ∷ c) ∷ cs) end file = read_chunks cs end (file ++ b ∷ c)

-- how one request ends: `break` or `return`, or a failure that counts as an attempt
pub data Round : Type 0 where
  stop : Result S3Error Bytes → Round
  again : Bytes → Round

unfoldable pub after_read : Bytes × Ending → Round
after_read (file, eof) = stop (ok file)
after_read (file, broken) = again file

unfoldable pub stream_round : Answer → Bytes → Round
unfolding read_chunks after_read
stream_round (missing e) file = stop (err e)
stream_round refused file = again file
stream_round (served cs end) file = after_read (read_chunks cs end file)

-- the outer loop, with the retries that are left
unfoldable pub stream_loop : (Bytes → Bool) → Serve → ℕ → ℕ → Bytes → Result S3Error Bytes
unfolding stream_round
stream_loop enough serve zero i file =
    if enough file then ok file else elim (stream_round (serve i (start_at (length file))) file) [
      | stop r ↦ r
      | again file' ↦ err other
    ]
stream_loop enough serve (suc left) i file =
    if enough file then ok file else elim (stream_round (serve i (start_at (length file))) file) [
      | stop r ↦ r
      | again file' ↦ stream_loop enough serve left (i + 1) file'
    ]

-- `written > 0 && written >= expected_len`
abbrev pub arrived : ℕ → Bytes → Bool
arrived expected_len file = ltb 0 (length file) && leb expected_len (length file)

-- the content of the file; its length is the answer of the function
unfoldable pub download_to_file : Serve → ℕ → Result S3Error Bytes
unfolding stream_loop
download_to_file serve expected_len = do
  file ← stream_loop (arrived expected_len) serve max_retries 0 []
  if eqb (length file) expected_len then ok file else err other
