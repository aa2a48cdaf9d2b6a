-- ===== src/Scanner/Tests.antt =====
-- backend/src/cache/scanner.rs: runs over a store with one set and one pending upload.
use rawdb.Base.{
  ℕ, ◌≡◌, refl, ◌&&◌, Bool, false, Option, none, some, List, [], ◌∷◌, ◌++◌, Text, codes, ◌==◌,
  Result, ok, err, if◌then◌else◌,
}
use rawdb.S3.{S3, Bytes, ObjectInfo}
use rawdb.Memory.{Memory, memory}
use rawdb.Memory.Laws.{memory-IsStore}
use rawdb.Meta.{RawdbMeta, FileMeta, default_license}
use rawdb.Auth.{UserRow}
use rawdb.Cache.{Cache, SetEntry}
use rawdb.Scanner.{
  Moments, meta_file, users_key, pair_files, split_set_prefix, split_pending_prefix, missing,
  updated,
}
use rawdb.Scanner.Pair.{IsPairing, pair_files-IsPairing}
use rawdb.Scanner.Entry.{
  IsSetScan, scan_one_set-IsSetScan, IsPendingScan, scan_one_pending-IsPendingScan,
}
use rawdb.Scanner.Mirror.{IsUsersScan, scan_users-IsUsersScan}
use rawdb.Scanner.Pass.{scan_one_set, scan_one_pending, scan_users}

abbrev meta : RawdbMeta
meta = record {
  set = record {
    maker = codes "Canon";
    model = codes "R5";
    license = default_license;
    uploaded_by = none;
    uploaded_at = some 4;
    notes = none;
    special = false;
    approved_at = none;
    approved_by = none;
    approved_initial_at = none;
    approved_initial_by = none;
  };
  files =
      record { path = codes "raw/a.cr3"; sha256 = none; license = none; notes = none; tags = [] }
      ∷ [];
}

abbrev set_prefix : Text
set_prefix = codes "samples/Canon/R5/"

abbrev upload : Text
upload = codes "pending/20260514T180000Z-a1b2c3d4/"

abbrev store : Memory
store =
    (set_prefix ++ meta_file, 1 ∷ [])
    ∷ (set_prefix ++ codes "raw/a.cr3", 2 ∷ 3 ∷ [])
    ∷ (upload ++ meta_file, 1 ∷ [])
    ∷ (upload ++ codes "raw/a.cr3", 2 ∷ 3 ∷ [])
    ∷ (users_key, 5 ∷ [])
    ∷ []

abbrev now : Moments Memory
now = record { at_head = store; at_get = store; at_list = store }

abbrev utf8 : Bytes → Option Text
utf8 b = some b

abbrev toml : Text → Option RawdbMeta
toml s = some meta

abbrev empty_cache : Cache
empty_cache = record {
  sets = [];
  pending = [];
  users = [];
  users_etag = none;
  sets_gen = 0;
  pending_gen = 0;
}

-- a cache with the set Canon R5 and a set that the store does not have
abbrev row : Text → SetEntry
row model = record {
  row = record meta.set { model = model };
  meta_etag = some (codes "old");
  files = [];
}

abbrev old_cache : Cache
old_cache = record empty_cache { sets = row (codes "R5") ∷ row (codes "R6") ∷ [] }

-- the service with a listing of prefixes
abbrev listed : S3 Memory
listed = record memory {
  list_common_prefixes =
      λ p s. ok ((if p == codes "samples/" then codes "samples/Canon/" else set_prefix) ∷ []);
}

split_tests :
    (split_set_prefix (codes "samples/Canon/EOS R5/") ≡ some (codes "Canon", codes "EOS R5"))
    × (split_set_prefix (codes "samples/Canon/") ≡ none)
    × (split_pending_prefix upload ≡ some (codes "20260514T180000Z-a1b2c3d4"))
unfolding split_set_prefix split_pending_prefix rawdb.Base.strip_prefix rawdb.Base.split_once
    rawdb.Base.contains
split_tests = (refl, refl, refl)

pair_tests : pair_files meta set_prefix [] ≡ err (codes "raw/a.cr3" ∷ [])
unfolding pair_files rawdb.Scanner.pairing rawdb.Scanner.missing_paths rawdb.Base.lookup
    rawdb.Scanner.index_objects
pair_tests = refl

scan_one_set_tests :
    (scan_one_set memory utf8 toml now set_prefix (codes "Canon") (codes "R5") old_cache).0
    ≡ ok updated
unfolding scan_one_set rawdb.Scanner.Pass.store_set rawdb.Scanner.read_entry rawdb.Scanner.read_body
    rawdb.Scanner.read_files memory rawdb.Memory.stored rawdb.Memory.get_body rawdb.Memory.under
    rawdb.Base.lookup ◌==◌ rawdb.Scanner.same_etag rawdb.Cache.get_set_meta_etag rawdb.Base.find
    rawdb.Scanner.parse_meta rawdb.Meta.parse rawdb.Meta.validate rawdb.Base.trim
    rawdb.Meta.validate_path rawdb.Base.contains rawdb.Base.any rawdb.Base.split pair_files
    rawdb.Scanner.pairing rawdb.Scanner.index_objects rawdb.Scanner.put_object rawdb.Scanner.paired
    rawdb.Scanner.missing_paths rawdb.Base.strip_prefix rawdb.Base.insert rawdb.Cache.upsert_set
    rawdb.Cache.double_path rawdb.Scanner.with_date
scan_one_set_tests = refl

abbrev objects : List ObjectInfo
objects =
    record { key = set_prefix ++ codes "raw/a.cr3"; size = 2; etag = none; last_modified = none }
    ∷ []

pair_files-IsPairing_example :
    IsPairing meta set_prefix objects (pair_files meta set_prefix objects)
pair_files-IsPairing_example = pair_files-IsPairing meta set_prefix objects

scan_one_set-IsSetScan_example :
    IsSetScan memory-IsStore utf8 toml now set_prefix old_cache
      (scan_one_set memory utf8 toml now set_prefix (codes "Canon") (codes "R5") old_cache)
scan_one_set-IsSetScan_example =
    scan_one_set-IsSetScan memory-IsStore utf8 toml now set_prefix (codes "Canon") (codes "R5")
      old_cache

scan_one_pending-IsPendingScan_example :
    IsPendingScan memory-IsStore utf8 toml now upload
      (codes "20260514T180000Z-a1b2c3d4")
      old_cache
      (scan_one_pending memory utf8 toml now upload (codes "20260514T180000Z-a1b2c3d4") old_cache)
scan_one_pending-IsPendingScan_example =
    scan_one_pending-IsPendingScan memory-IsStore utf8 toml now upload
      (codes "20260514T180000Z-a1b2c3d4") old_cache

abbrev users_toml : Text → Option (List UserRow)
users_toml s = some []

scan_users-IsUsersScan_example :
    IsUsersScan memory-IsStore utf8 users_toml store store old_cache
      (scan_users memory utf8 users_toml store store old_cache)
scan_users-IsUsersScan_example =
    scan_users-IsUsersScan memory-IsStore utf8 users_toml store store old_cache
