-- ===== src/Admin/Tests.antt =====
-- backend/src/routes/admin.rs: runs of the handlers over a store with one upload and one set.
use rawdb.Base.{
  ℕ, ◌≡◌, ◌≢◌, refl, Bool, false, Option, none, some, List, [], ◌∷◌, ◌++◌, Text, codes, any, ◌==◌,
  length, lookup, Result, ok, err,
}
use rawdb.S3.{S3, Bytes, ObjectInfo}
use rawdb.Memory.{Memory, memory}
use rawdb.Memory.Laws.{memory-IsStore}
use rawdb.Meta.{default_license}
use rawdb.Cache.{SetEntry}
use rawdb.State.{Pod}
use rawdb.SyncTick.{Domain}
use rawdb.Admin.{keys, delete_prefix, reject_pending, delete_set}
use rawdb.Admin.Clear.{IsGone, delete_errors, delete_prefix-contents}
use rawdb.Admin.Delete.{IsRejection, reject_pending-IsRejection, IsDeletion, delete_set-IsDeletion}

abbrev id : Text
id = codes "20260514T180000Z-a1b2c3d4"

abbrev store : Memory
store =
    (codes "pending/" ++ id ++ codes "/rawdb-meta.toml", 1 ∷ [])
    ∷ (codes "pending/" ++ id ++ codes "/raw/a.cr3", 2 ∷ [])
    ∷ (codes "samples/Canon/R5/raw/b.cr3", 3 ∷ [])
    ∷ []

abbrev kept : Memory
kept = (codes "samples/Canon/R5/raw/b.cr3", 3 ∷ []) ∷ []

abbrev tick : Domain → Bytes
tick d = 1 ∷ []

abbrev canon : SetEntry
canon = record {
  row = record {
    maker = codes "Canon";
    model = codes "R5";
    license = default_license;
    uploaded_by = none;
    uploaded_at = none;
    notes = none;
    special = false;
    approved_at = none;
    approved_by = none;
    approved_initial_at = none;
    approved_initial_by = none;
  };
  meta_etag = none;
  files = [];
}

abbrev pod : Pod Memory
pod = record {
  store = store;
  cache = record {
    sets = canon ∷ [];
    pending = [];
    users = [];
    users_etag = none;
    sets_gen = 0;
    pending_gen = 0;
  };
  ticks = record { users = none; sets = none; pending = none };
  jobs = [];
  events = [];
}

delete_prefix_tests : delete_prefix memory (codes "pending/") store ≡ (ok 2, kept)
unfolding delete_prefix memory rawdb.Base.strip_prefix ◌==◌
delete_prefix_tests = refl

delete_prefix-contents_example :
    (objects : List ObjectInfo) × (memory.list_objects (codes "pending/") store ≡ ok objects)
    × (2 ≡ length objects)
    × ((k : Text)
        → IsGone
            (memory-IsStore.contents kept (codes "pending/" ++ k))
            (codes "pending/" ++ k)
            (delete_errors memory (codes "pending/") store))
    × ((j : Text)
        → any (λ k. k == j) (keys objects) ≡ false
        → memory-IsStore.contents kept j ≡ memory-IsStore.contents store j)
    × ((j : Text)
        → ((k : Text) → codes "pending/" ++ k ≢ j)
        → memory-IsStore.contents kept j ≡ memory-IsStore.contents store j)
delete_prefix-contents_example =
    delete_prefix-contents memory-IsStore (codes "pending/") 2 store kept delete_prefix_tests

reject_pending-IsRejection_example :
    IsRejection memory-IsStore tick id pod (reject_pending memory tick id pod)
reject_pending-IsRejection_example = reject_pending-IsRejection memory-IsStore tick id pod

delete_set-IsDeletion_example :
    IsDeletion memory-IsStore tick
      (codes "Canon")
      (codes "R5")
      pod
      (delete_set memory tick (codes "Canon") (codes "R5") pod)
delete_set-IsDeletion_example =
    delete_set-IsDeletion memory-IsStore tick (codes "Canon") (codes "R5") pod

-- a service that deletes nothing and reports an error for each key
abbrev stuck : S3 Memory
stuck = record memory { delete_objects = λ ks s. (ok ks, s) }

-- the rejection answers that it succeeded, and the upload is still there
stuck_tests :
    ((reject_pending stuck tick id pod).0 ≡ ok tt)
    × (lookup
          (codes "pending/" ++ id ++ codes "/raw/a.cr3")
          (reject_pending stuck tick id pod).1.store
        ≡ some (2 ∷ []))
unfolding reject_pending memory rawdb.Base.strip_prefix ◌==◌ lookup rawdb.SyncTick.bump
    rawdb.SyncTick.key
stuck_tests = (refl, refl)
