-- ===== src/SyncTick/Watch.antt =====
-- backend/src/sync_tick.rs: run_passes and one round of the loop of spawn_watcher. Logs and the event are
-- left out.
use rawdb.Base.{Bool, true, false, Option, List, [], ◌∷◌, Text, any, ok, err, if◌then◌else◌}
use rawdb.S3.{S3, Bytes}
use rawdb.Meta.{RawdbMeta}
use rawdb.Auth.{UserRow}
use rawdb.State.{TickState}
use rawdb.Cache.{Cache}
use rawdb.Scanner.Once.{ScanMoments, run_samples_pass, run_pending_pass, run_users_pass}
use rawdb.SyncTick.{Domain, poll_once}

abbrev is_users : Domain → Bool
is_users Domain.users = true
is_users Domain.sets = false
is_users Domain.pending = false

abbrev is_sets : Domain → Bool
is_sets Domain.users = false
is_sets Domain.sets = true
is_sets Domain.pending = false

abbrev is_pending : Domain → Bool
is_pending Domain.users = false
is_pending Domain.sets = false
is_pending Domain.pending = true

module _ {St : Type 0} (s3 : S3 St) (from_utf8 : Bytes → Option Text)
    (from_str : Text → Option RawdbMeta) (users_from_str : Text → Option (List UserRow)) where
  -- the error of a pass is only logged, so the next one runs on what it has left
  unfoldable pub run_passes : ScanMoments St → List Domain → Cache → Cache
  unfolding any run_pending_pass run_samples_pass run_users_pass
  run_passes t domains c =
      let c1 : Cache =
        if any is_pending domains
        then (run_pending_pass s3 from_utf8 from_str users_from_str t c).1
        else c in
      let c2 : Cache =
        if any is_sets domains
        then (run_samples_pass s3 from_utf8 from_str users_from_str t c1).1
        else c1 in
      if any is_users domains
      then (run_users_pass s3 from_utf8 from_str users_from_str t c2).1
      else c2

  -- a round: the poll at `s`, and then the passes of the domains that it reports
  unfoldable pub watch_round : St → ScanMoments St → TickState → Cache → TickState × Cache
  unfolding poll_once run_passes
  watch_round s t ticks c =
      let (polled, ticks') = poll_once s3 s ticks in
      elim polled [
        | err e ↦ (ticks', c)
        | ok [] ↦ (ticks', c)
        | ok (d ∷ ds) ↦ (ticks', run_passes t (d ∷ ds) c)
      ]
