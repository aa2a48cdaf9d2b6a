-- ===== src/Verify/Tests.antt =====
-- backend/src/routes/admin.rs: a verification whose streams break.
use rawdb.Base.{
  ℕ, zero, suc, ◌≡◌, ◌+◌, ◌≤◌, ◌++◌, inr, refl, Bool, false, Option, none, some, List, [], ◌∷◌,
  Text, codes, ok, err, Result, arith,
}
use rawdb.Error.{other}
use rawdb.S3.{Bytes}
use rawdb.S3.Download.{Serve, broken, refused, served, download_to_file}
use rawdb.S3.Recover.{IsOpen}
use rawdb.Memory.{Memory, memory}
use rawdb.Memory.Streams.{flaky, flaky-Serves, flaky-Recovers}
use rawdb.Meta.{RawdbMeta, FileMeta, default_license}
use rawdb.Scanner.{meta_file}
use rawdb.Verify.{VerifyResult, load_meta, hash_file, upload_prefix, verify_pending}
use rawdb.Verify.Tallies.{report}
use rawdb.Verify.Report.{RecoversSoon, verify_pending-report, verify_pending-Recovers}
use rawdb.Verify.Tail.{hash_file_fails_at_end}

abbrev body : Bytes
body = 49 ∷ 65 ∷ 66 ∷ []

abbrev file : Text → Option Text → FileMeta
file path claim = record { path = path; sha256 = claim; license = none; notes = none; tags = [] }

abbrev meta : RawdbMeta
meta = record {
  set = record {
    maker = codes "Canon";
    model = codes "R5";
    license = default_license;
    uploaded_by = none;
    uploaded_at = none;
    notes = none;
    special = false;
    approved_at = none;
    approved_by = none;
    approved_initial_at = none;
    approved_initial_by = none;
  };
  files =
      file (codes "raw/a") (some (codes "1ab"))
      ∷ file (codes "raw/b") (some (codes "1ac"))
      ∷ file (codes "raw/c") none
      ∷ [];
}

abbrev store : Memory
store = (codes "pending/7/rawdb-meta.toml", 1 ∷ []) ∷ []

abbrev serve : Text → Serve
serve key = flaky body

-- the digest of the tests is the content itself
abbrev digits : Bytes → Text
digits b = b

abbrev answer : VerifyResult
answer = report (λ key. body) digits (upload_prefix (codes "7")) meta.files

loaded :
    load_meta memory (λ b. some b) (λ s. some meta) (upload_prefix (codes "7") ++ meta_file) store
    ≡ ok meta
unfolding load_meta memory rawdb.Base.lookup rawdb.Base.◌==◌ rawdb.Meta.parse rawdb.Base.trim
    rawdb.Meta.validate_path rawdb.Base.contains rawdb.Base.any rawdb.Base.split
loaded = refl

numbers :
    (answer.verified ≡ 1) × (answer.mismatched ≡ 1) × (answer.missing ≡ 1) × (answer.is_ok ≡ false)
unfolding rawdb.Base.◌==◌ rawdb.Base.eq_ignore_ascii_case
numbers = (refl, refl, refl, refl)

soon : RecoversSoon body (flaky body)
soon = (2, omega arith, flaky-Recovers IsOpen 49 65 (66 ∷ []) (λ f more n. inr n))

verify_pending-Recovers_example :
    verify_pending memory (λ b. some b) (λ s. some meta) serve digits (codes "7") store ≡ ok answer
verify_pending-Recovers_example =
    verify_pending-Recovers (λ key. body) digits serve memory (λ b. some b) (λ s. some meta)
      (codes "7") store meta (λ key. flaky-Serves body) loaded (soon, (soon, (soon, tt)))

verify_pending-report_example :
    (parsed : RawdbMeta) × (load_meta memory
        (λ b. some b)
        (λ s. some meta)
        (upload_prefix (codes "7") ++ meta_file)
        store
      ≡ ok parsed)
    × (answer ≡ report (λ key. body) digits (upload_prefix (codes "7")) parsed.files)
    × (answer.verified + answer.mismatched + answer.missing ≡ answer.total)
verify_pending-report_example =
    verify_pending-report (λ key. body) digits serve memory (λ b. some b) (λ s. some meta)
      (codes "7") store answer (λ key. flaky-Serves body) verify_pending-Recovers_example

abbrev cut : Serve
cut zero start = served (body ∷ []) broken
cut (suc i) start = refused

hash_file_fails_at_end_example :
    (hash_file (λ key. cut) digits (codes "k") ≡ err other) × (download_to_file cut 3 ≡ ok body)
hash_file_fails_at_end_example =
    hash_file_fails_at_end body (body ∷ []) (λ key. cut) digits (codes "k")
      ((λ e. cc), refl, ((λ e. cc), tt), refl, later)
  where
    later : (i : ℕ) → 1 ≤ i → cut i (some 3) ≡ refused
    later zero h = absurd (omega arith)
    later (suc i) h = refl
