-- ===== src/Scanner/Once.antt =====
-- backend/src/cache/scanner.rs: run_once, which runs the three passes and adds up their results, and the
-- passes that the watcher of the sync ticks runs one by one. The time of the last full scan is left out.
use rawdb.Base.{ℕ, ◌+◌, Option, List, Text, Result, ok, err}
use rawdb.Error.{AppError}
use rawdb.S3.{S3, Bytes}
use rawdb.Meta.{RawdbMeta}
use rawdb.Auth.{UserRow}
use rawdb.Cache.{Cache}
use rawdb.Scanner.{Moments}
use rawdb.Scanner.Pass.{PassResult, scan_samples, scan_pending, scan_users}

pub record ScanSummary : Type 0 where
  pub samples_seen : ℕ
  pub samples_updated : ℕ
  pub samples_deleted : ℕ
  pub pending_seen : ℕ
  pub pending_updated : ℕ
  pub pending_deleted : ℕ
  pub users_updated : ℕ
  pub transient_failures : ℕ
  pub incomplete : ℕ

-- the states of the store at which the reads of a scan are answered
pub record ScanMoments (St : Type 0) : Type 0 where
  pub at_samples : St
  pub at_set : Text → Moments St
  pub at_pending : St
  pub at_upload : Text → Moments St
  pub at_users_head : St
  pub at_users_get : St

unfoldable pub summary_of : PassResult → PassResult → ℕ → ScanSummary
summary_of a b users = record {
  samples_seen = a.seen;
  samples_updated = a.updated;
  samples_deleted = a.deleted;
  pending_seen = b.seen;
  pending_updated = b.updated;
  pending_deleted = b.deleted;
  users_updated = users;
  transient_failures = a.transient_failures + b.transient_failures;
  incomplete = a.incomplete + b.incomplete;
}

-- a pass whose result is dropped
abbrev pub pass_unit {ℓ} :
    {A : Type ℓ} → Result AppError A × Cache → Result AppError (Unit {0}) × Cache
pass_unit (ok a, c) = (ok tt, c)
pass_unit (err e, c) = (err e, c)

module _ {St : Type 0} (s3 : S3 St) (from_utf8 : Bytes → Option Text)
    (from_str : Text → Option RawdbMeta) (users_from_str : Text → Option (List UserRow)) where
  unfoldable pub run_samples_pass : ScanMoments St → Cache → Result AppError (Unit {0}) × Cache
  unfolding scan_samples
  run_samples_pass t c = pass_unit (scan_samples s3 from_utf8 from_str t.at_set t.at_samples c)

  unfoldable pub run_pending_pass : ScanMoments St → Cache → Result AppError (Unit {0}) × Cache
  unfolding scan_pending
  run_pending_pass t c = pass_unit (scan_pending s3 from_utf8 from_str t.at_upload t.at_pending c)

  unfoldable pub run_users_pass : ScanMoments St → Cache → Result AppError (Unit {0}) × Cache
  unfolding scan_users
  run_users_pass t c =
      pass_unit (scan_users s3 from_utf8 users_from_str t.at_users_head t.at_users_get c)

  -- each pass is run on what the one before it has left, and the first error ends the scan
  unfoldable pub run_once : ScanMoments St → Cache → Result AppError ScanSummary × Cache
  unfolding scan_samples scan_pending scan_users summary_of
  run_once t c =
      let (ra, ca) = scan_samples s3 from_utf8 from_str t.at_set t.at_samples c in
      elim ra [
        | err e ↦ (err e, ca)
        | ok a ↦
            let (rb, cb) = scan_pending s3 from_utf8 from_str t.at_upload t.at_pending ca in
            elim rb [
              | err e ↦ (err e, cb)
              | ok b ↦
                  let (rc, after) =
                    scan_users s3 from_utf8 users_from_str t.at_users_head t.at_users_get cb in
                  elim rc [ err e ↦ (err e, after) | ok users ↦ (ok (summary_of a b users), after) ]
            ]
      ]
