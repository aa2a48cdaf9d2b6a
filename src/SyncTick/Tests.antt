-- ===== src/SyncTick/Tests.antt =====
-- backend/src/sync_tick.rs: runs of `bump` and `poll_once`.
use rawdb.Base.{
  ◌≡◌, refl, ◌≢◌, ◌↔◌, Bool, true, false, Option, none, some, List, [], ◌∷◌, Text, codes, ◌==◌,
  Result, ok, err, if◌then◌else◌,
}
use rawdb.S3.{S3, HeadInfo, Bytes, other}
use rawdb.Memory.{Memory, memory}
use rawdb.Memory.Laws.{memory-IsStore}
use rawdb.State.{TickState, Pod}
use rawdb.SyncTick.{Domain, users, sets, pending, key, cell, bump_one, seen_etag, poll_once}
use rawdb.SyncTick.Watch.{run_passes, watch_round}
use rawdb.Error.{other as internal}
use rawdb.Auth.{UserRow}
use rawdb.Scanner.{Moments, users_key}
use rawdb.Scanner.Once.{ScanMoments, run_once}
use rawdb.SyncTick.Poll.{Reported, IsNews, latest, poll_once-Tells}
use rawdb.SyncTick.Bump.{bump_one-poll_once, poll_once_misses}

abbrev body : Domain → Bytes
body d = 1 ∷ 2 ∷ []

abbrev unseen : TickState
unseen = record { users = none; sets = none; pending = none }

abbrev after : Memory
after = (key users, 1 ∷ 2 ∷ []) ∷ []

abbrev now_seen : TickState
now_seen = record unseen { users = some (1 ∷ 2 ∷ []) }

abbrev pod : Pod Memory
pod = record {
  store = [];
  cache = record {
    sets = [];
    pending = [];
    users = [];
    users_etag = none;
    sets_gen = 0;
    pending_gen = 0;
  };
  ticks = unseen;
  jobs = [];
  events = [];
}

poll_tests : poll_once memory after unseen ≡ (ok (users ∷ []), now_seen)
unfolding poll_once rawdb.SyncTick.poll_from rawdb.SyncTick.heads memory rawdb.SyncTick.refresh
    rawdb.Base.lookup ◌==◌ key cell rawdb.SyncTick.set_cell
poll_tests = refl

poll_once-Tells_example :
    (i : Option HeadInfo) × (memory.head (key users) after ≡ ok i)
    × (Reported users (users ∷ []) ↔ IsNews (seen_etag i) (cell users unseen))
    × (cell users now_seen ≡ latest (seen_etag i) (cell users unseen))
poll_once-Tells_example = poll_once-Tells memory after unseen now_seen (users ∷ []) users poll_tests

bump_tests :
    memory.put_bytes (key users) (body users) none none pod.store ≡ (ok (1 ∷ 2 ∷ []), after)
unfolding memory
bump_tests = refl

bumped_tests :
    poll_once memory (bump_one memory body users pod).store unseen ≡ (ok (users ∷ []), now_seen)
unfolding poll_once rawdb.SyncTick.poll_from rawdb.SyncTick.heads memory rawdb.SyncTick.refresh
    rawdb.Base.lookup bump_one ◌==◌ key cell rawdb.SyncTick.set_cell
bumped_tests = refl

bump_one-poll_once_example :
    (Reported users (users ∷ []) ↔ (cell users unseen ≢ some (1 ∷ 2 ∷ [])))
    × (cell users (bump_one memory body users pod).ticks ≡ some (1 ∷ 2 ∷ []))
    × (cell users now_seen ≡ some (1 ∷ 2 ∷ []))
bump_one-poll_once_example =
    bump_one-poll_once memory memory-IsStore body users pod (1 ∷ 2 ∷ []) after unseen now_seen
      (users ∷ []) bump_tests bumped_tests

-- a service that cannot be asked for the tick of the sets while the store is empty but for one tick
abbrev flaky : S3 Bool
flaky = record {
  head = λ k up.
      if k == codes "_system/sync/users.tick"
      then ok (some (record { size = 2; etag = some (1 ∷ []); last_modified = none }))
      else (if up then ok none else err other);
  get_bytes = λ k s. err other;
  list_objects = λ p s. err other;
  list_common_prefixes = λ p s. err other;
  put_bytes = λ k b m n s. (err other, s);
  copy = λ a b s. (err other, s);
  delete = λ k s. (err other, s);
  delete_objects = λ ks s. (err other, s);
  create_multipart_upload = λ k s. (err other, s);
  presign_put = λ k s. err other;
  presign_upload_part = λ k u n s. err other;
}

abbrev tick : HeadInfo
tick = record { size = 2; etag = some (1 ∷ []); last_modified = none }

head_tests :
    (flaky.head (key users) false ≡ ok (some tick))
    × (flaky.head (key sets) false ≡ err other)
    × (flaky.head (key users) true ≡ ok (some tick))
unfolding key ◌==◌
head_tests = (refl, refl, refl)

abbrev missed : TickState
missed = record unseen { users = some (1 ∷ []) }

missed_tests : poll_once flaky true (poll_once flaky false unseen).1 ≡ (ok [], missed)
unfolding poll_once rawdb.SyncTick.poll_from rawdb.SyncTick.heads ◌==◌ key rawdb.SyncTick.refresh
    cell rawdb.SyncTick.set_cell
missed_tests = refl

none_ne_some : {e : Text} → ◌≡◌ {A = Option Text} none (some e) → ⊥
none_ne_some h = cc

cell_tests : cell users unseen ≢ some (1 ∷ [])
unfolding cell
cell_tests h = none_ne_some h

poll_once_misses_example : ((poll_once flaky false unseen).0 ≡ err other) × (¬ Reported users [])
poll_once_misses_example =
    poll_once_misses flaky false true unseen missed tick tick (1 ∷ []) other [] (head_tests.0) refl
      cell_tests (head_tests.1) (head_tests.2) refl missed_tests

-- a service that cannot list, with a users file
abbrev unlisted : S3 Memory
unlisted = record memory { list_common_prefixes = λ p s. err other }

abbrev with_users : Memory
with_users = (users_key, 5 ∷ []) ∷ []

abbrev moments : Moments Memory
moments = record { at_head = with_users; at_get = with_users; at_list = with_users }

abbrev scan_moments : ScanMoments Memory
scan_moments = record {
  at_samples = with_users;
  at_set = λ p. moments;
  at_pending = with_users;
  at_upload = λ p. moments;
  at_users_head = with_users;
  at_users_get = with_users;
}

abbrev ann : UserRow
ann = record {
  sub = codes "ann";
  display_name = none;
  blocked = false;
  added_at = none;
  added_by = none;
  roles = [];
  api_key_hash = none;
}

-- the pass over the users runs although that over the uploads fails
passes_tests :
    run_passes unlisted
      (λ b. some b)
      (λ s. none)
      (λ s. some (ann ∷ []))
      scan_moments
      (users ∷ pending ∷ [])
      pod.cache
    ≡ record pod.cache { users = ann ∷ []; users_etag = some (5 ∷ []) }
unfolding run_passes memory rawdb.Base.lookup rawdb.Cache.replace_users ◌==◌ rawdb.Scanner.same_etag
    rawdb.Scanner.Pass.parse_users_toml
passes_tests = refl

-- a full scan stops at the first error
once_tests :
    run_once unlisted (λ b. some b) (λ s. none) (λ s. some (ann ∷ [])) scan_moments pod.cache
    ≡ (err internal, pod.cache)
unfolding run_once rawdb.Scanner.Pass.model_prefixes
once_tests = refl

watch_tests :
    watch_round memory
      (λ b. some b)
      (λ s. none)
      (λ s. some (ann ∷ []))
      after
      scan_moments
      unseen
      pod.cache
    ≡ (now_seen, record pod.cache { users = ann ∷ []; users_etag = some (5 ∷ []) })
unfolding watch_round memory rawdb.Base.lookup rawdb.Cache.replace_users ◌==◌ key cell
    rawdb.Scanner.same_etag rawdb.Scanner.Pass.parse_users_toml rawdb.SyncTick.set_cell
    rawdb.SyncTick.poll_from rawdb.SyncTick.heads rawdb.SyncTick.refresh
watch_tests = refl
