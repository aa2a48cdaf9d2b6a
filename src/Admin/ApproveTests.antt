-- ===== src/Admin/ApproveTests.antt =====
-- backend/src/routes/admin.rs: the approval of an upload of two files, of which one is selected, and the
-- removal of a file of a set.
use rawdb.Base.{
  ◌≡◌, refl, Bool, false, Option, none, some, List, [], ◌∷◌, ◌++◌, Text, codes, ◌==◌, lookup,
  Result, ok, err,
}
use rawdb.Error.{
  AppError, conflict, bad_request, not_found, invalid_file_path, bad_conflict_mode,
  already_approved,
}
use rawdb.Memory.{Memory, memory}
use rawdb.Memory.Laws.{memory-IsStore}
use rawdb.Meta.{SetMeta, FileMeta, RawdbMeta, DateTime, default_license}
use rawdb.State.{Pod}
use rawdb.SyncTick.{Domain}
use rawdb.Admin.Remove.{delete_set_file}
use rawdb.Admin.Removal.{IsFileRemoval, delete_set_file-IsFileRemoval}
use rawdb.Admin.Selection.{ApproveRequest}
use rawdb.Admin.Approve.{approve_pending}
use rawdb.Admin.Approval.{IsApproval, approve_pending-IsApproval}

abbrev pub set : SetMeta
set = record {
  maker = codes "Canon";
  model = codes "R5";
  license = default_license;
  uploaded_by = none;
  uploaded_at = some 5;
  notes = none;
  special = false;
  approved_at = none;
  approved_by = none;
  approved_initial_at = none;
  approved_initial_by = none;
}

abbrev pub file : Text → FileMeta
file path = record { path = path; sha256 = none; license = none; notes = none; tags = [] }

abbrev pub meta : RawdbMeta
meta = record { set = set; files = file (codes "raw/a") ∷ file (codes "raw/b") ∷ [] }

abbrev pub store : Memory
store =
    (codes "pending/7/rawdb-meta.toml", 1 ∷ [])
    ∷ (codes "pending/7/raw/a", 2 ∷ [])
    ∷ (codes "pending/7/raw/b", 3 ∷ [])
    ∷ []

abbrev pub pod : Pod Memory
pod = record {
  store = store;
  cache = record {
    sets = [];
    pending = [];
    users = [];
    users_etag = none;
    sets_gen = 0;
    pending_gen = 0;
  };
  ticks = record { users = none; sets = none; pending = none };
  jobs = [];
  events = [];
}

abbrev pub existing_pod : Pod Memory
existing_pod = record pod {
  cache = record pod.cache { sets = record { row = set; meta_etag = none; files = [] } ∷ [] };
}

abbrev request : ApproveRequest
request = record { conflict = none; files = codes "raw/b" ∷ [] }

approve : ApproveRequest → Pod Memory → Result AppError (Unit {0}) × Pod Memory
approve req p =
    approve_pending memory (λ b. some b) (λ s. some meta) (λ d. []) (λ t. t) (λ d. 1 ∷ []) 9
      (codes "ann") (codes "7") req p

abbrev approved_pod : Pod Memory
approved_pod = (approve request pod).1

approve_tests : approve request pod ≡ (ok tt, approved_pod)
unfolding approve approve_pending memory rawdb.Base.lookup rawdb.Meta.parse rawdb.Base.trim
    rawdb.Meta.validate_path rawdb.Base.contains rawdb.Base.any rawdb.Base.split rawdb.Base.retain
    rawdb.Cache.get_set rawdb.Base.find rawdb.Base.strip_prefix
approve_tests = refl

bad_mode_tests :
    approve (record request { conflict = some (codes "keep") }) pod
    ≡ (err (bad_request bad_conflict_mode), pod)
unfolding approve approve_pending
bad_mode_tests = refl

refuse_tests :
    approve request existing_pod
    ≡ (err (conflict (already_approved (codes "Canon") (codes "R5"))), existing_pod)
unfolding approve approve_pending memory rawdb.Cache.get_set ◌==◌ rawdb.Base.find lookup
    rawdb.Meta.parse rawdb.Base.trim rawdb.Meta.validate_path rawdb.Base.contains rawdb.Base.any
    rawdb.Base.split rawdb.Base.retain
refuse_tests = refl

moved_tests : lookup (codes "samples/Canon/R5/raw/b") approved_pod.store ≡ some (3 ∷ [])
unfolding approve approve_pending memory lookup ◌==◌ rawdb.Meta.parse rawdb.Base.trim
    rawdb.Meta.validate_path rawdb.Base.contains rawdb.Base.any rawdb.Base.split rawdb.Base.retain
    rawdb.Cache.get_set rawdb.Base.find rawdb.Base.strip_prefix rawdb.SyncTick.bump
    rawdb.SyncTick.key
moved_tests = refl

approve_pending-IsApproval_example :
    IsApproval memory-IsStore
      (λ b. some b)
      (λ s. some meta)
      (λ d. [])
      (λ t. t)
      (λ d. 1 ∷ [])
      9
      (codes "ann")
      (codes "7")
      request
      pod
      approved_pod
unfolding approve_pending approve
approve_pending-IsApproval_example =
    approve_pending-IsApproval memory-IsStore (λ b. some b) (λ s. some meta) (λ d. []) (λ t. t)
      (λ d. 1 ∷ []) 9 (codes "ann") (codes "7") request pod approved_pod approve_tests

abbrev pub set_store : Memory
set_store =
    (codes "samples/Canon/R5/rawdb-meta.toml", 1 ∷ [])
    ∷ (codes "samples/Canon/R5/raw/a", 2 ∷ [])
    ∷ (codes "samples/Canon/R5/raw/b", 3 ∷ [])
    ∷ []

abbrev pub set_pod : Pod Memory
set_pod = record existing_pod { store = set_store }

remove : Text → Pod Memory → Result AppError (Unit {0}) × Pod Memory
remove path p =
    delete_set_file memory (λ b. some b) (λ s. some meta) (λ d. []) (λ t. t) (λ d. 1 ∷ [])
      (codes "Canon") (codes "R5") path p

removed_tests : (remove (codes "raw/a") set_pod).0 ≡ ok tt
unfolding remove delete_set_file rawdb.Base.contains_dotdot rawdb.Base.find ◌==◌ memory lookup
    rawdb.Meta.parse rawdb.Base.trim rawdb.Meta.validate_path rawdb.Base.contains rawdb.Base.any
    rawdb.Base.split rawdb.Base.retain
removed_tests = refl

unknown_file_tests : remove (codes "raw/c") set_pod ≡ (err not_found, set_pod)
unfolding remove delete_set_file rawdb.Base.contains_dotdot rawdb.Base.find ◌==◌ memory lookup
    rawdb.Meta.parse rawdb.Base.trim rawdb.Meta.validate_path rawdb.Base.contains rawdb.Base.any
    rawdb.Base.split rawdb.Base.retain
unknown_file_tests = refl

climbing_tests : remove (codes "raw/../c") set_pod ≡ (err (bad_request invalid_file_path), set_pod)
unfolding remove delete_set_file rawdb.Base.contains_dotdot
climbing_tests = refl

delete_set_file-IsFileRemoval_example :
    IsFileRemoval memory-IsStore
      (λ b. some b)
      (λ s. some meta)
      (λ d. [])
      (λ t. t)
      (λ d. 1 ∷ [])
      (codes "Canon")
      (codes "R5")
      (codes "raw/a")
      set_pod
      (delete_set_file memory
        (λ b. some b)
        (λ s. some meta)
        (λ d. [])
        (λ t. t)
        (λ d. 1 ∷ [])
        (codes "Canon")
        (codes "R5")
        (codes "raw/a")
        set_pod)
delete_set_file-IsFileRemoval_example =
    delete_set_file-IsFileRemoval memory-IsStore (λ b. some b) (λ s. some meta) (λ d. []) (λ t. t)
      (λ d. 1 ∷ []) (codes "Canon") (codes "R5") (codes "raw/a") set_pod
