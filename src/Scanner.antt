-- ===== src/Scanner.antt =====
-- backend/src/cache/scanner.rs: the reconciliation of the cache with the S3 store.
-- The three reads of one set happen at three moments (`Moments`), between which other instances may
-- write; the moments of each set are an argument. Reading UTF-8 and TOML are arguments too. The
-- concurrent tasks of a pass are run in the order of the listing. Logs, metrics, Kubernetes events,
-- the readiness flag and the timer are left out.
mod Tests
pub mod Pass
pub mod Pair
pub mod Entry
pub mod Sweep
pub mod Mirror
pub mod Once
use rawdb.Base.{
  ℕ, ◌+◌, Bool, true, false, not, ◌&&◌, ◌||◌, Option, none, some, List, [], ◌∷◌, ◌++◌, Text, codes,
  ◌==◌, eqb, any, length, is_empty, contains, strip_prefix, split_once, lookup, insert, Result, ok,
  err, ◌>>=◌, map_err, if◌then◌else◌,
}
use rawdb.Error.{AppError, other}
use rawdb.S3.{S3, S3Error, Bytes, HeadInfo, ObjectInfo}
use rawdb.Meta.{FileMeta, RawdbMeta, MetaError, parse, DateTime}
use rawdb.Cache.{FileSizeInfo}

abbrev pub samples_prefix : Text
samples_prefix = codes "samples/"

abbrev pub pending_prefix : Text
pending_prefix = codes "pending/"

abbrev pub users_key : Text
users_key = codes "_system/users.toml"

abbrev pub meta_file : Text
meta_file = codes "rawdb-meta.toml"

-- `trim_end_matches('/')`
unfoldable pub trim_slashes : Text → Text
trim_slashes [] = []
trim_slashes (x ∷ xs) =
    let rest = trim_slashes xs in if is_empty rest && eqb x b'/' then [] else x ∷ rest

unfoldable pub split_set_prefix : Text → Option (Text × Text)
unfolding trim_slashes
split_set_prefix prefix = elim (strip_prefix samples_prefix prefix) [
  | none ↦ none
  | some rest ↦ elim (split_once b'/' (trim_slashes rest)) [
    | none ↦ none
    | some (maker, model) ↦
        if is_empty maker || is_empty model || contains b'/' model
        then none
        else some (maker, model)
  ]
]

unfoldable pub split_pending_prefix : Text → Option Text
split_pending_prefix prefix = elim (strip_prefix pending_prefix prefix) [
  | none ↦ none
  | some rest ↦
      let id = trim_slashes rest in if is_empty id || contains b'/' id then none else some id
]

-- the reason of `Incomplete`
pub data Gap : Type 0 where
  not_utf8 : Gap
  invalid : MetaError → Gap
  missing : List Text → Gap

pub data SetOutcome : Type 0 where
  updated unchanged meta_missing : SetOutcome
  incomplete : Gap → SetOutcome

abbrev pub Index : Type 0
Index = List (Text × (ℕ × Option Text))

-- one round of the first loop of `pair_files`
unfoldable pub put_object : Text → ObjectInfo → Index → Index
put_object prefix o by_rel = elim (strip_prefix prefix o.key) [
  | none ↦ by_rel
  | some rel ↦ if rel == meta_file then by_rel else insert rel (o.size, o.etag) by_rel
]

unfoldable pub index_objects : Text → List ObjectInfo → Index → Index
index_objects prefix [] by_rel = by_rel
index_objects prefix (o ∷ os) by_rel = index_objects prefix os (put_object prefix o by_rel)

-- the second loop: `out` and `missing`
unfoldable pub paired : Index → List FileMeta → List (FileMeta × FileSizeInfo)
paired by_rel [] = []
paired by_rel (f ∷ fs) =
    let rest = paired by_rel fs in
    elim (lookup f.path by_rel) [
      | none ↦ rest
      | some (n, e) ↦ (f, record { size = n; etag = e }) ∷ rest
    ]

unfoldable pub missing_paths : Index → List FileMeta → List Text
missing_paths by_rel [] = []
missing_paths by_rel (f ∷ fs) =
    let rest = missing_paths by_rel fs in
    elim (lookup f.path by_rel) [ none ↦ f.path ∷ rest | some v ↦ rest ]

-- `Ok(out)` if `missing` is empty
unfoldable pub pairing :
    List (FileMeta × FileSizeInfo) → List Text → Result (List Text) (List (FileMeta × FileSizeInfo))
pairing out [] = ok out
pairing out (p ∷ ps) = err (p ∷ ps)

unfoldable pub pair_files :
    RawdbMeta → Text → List ObjectInfo → Result (List Text) (List (FileMeta × FileSizeInfo))
pair_files meta prefix objects =
    let by_rel = index_objects prefix objects [] in
    pairing (paired by_rel meta.files) (missing_paths by_rel meta.files)

unfoldable pub parse_meta :
    (Bytes → Option Text) → (Text → Option RawdbMeta) → Bytes → Result Gap RawdbMeta
parse_meta from_utf8 from_str bytes = elim (from_utf8 bytes) [
  | none ↦ err not_utf8
  | some s ↦ map_err invalid (parse from_str s)
]

-- `a.as_deref() == b.as_deref()`
unfoldable pub same_etag : Option Text → Option Text → Bool
same_etag none none = true
same_etag (some a) (some b) = a == b
same_etag none (some b) = false
same_etag (some a) none = false

-- the fallback of `uploaded_at`
unfoldable pub with_date : Option DateTime → RawdbMeta → RawdbMeta
with_date modified m = elim m.set.uploaded_at [
  | none ↦ record m { set = record m.set { uploaded_at = modified } }
  | some d ↦ m
]

-- when the HEAD, the GET and the listing of one set are answered
pub record Moments (St : Type 0) : Type 0 where
  pub at_head : St
  pub at_get : St
  pub at_list : St

-- What a worker has found before it writes: an outcome, or the arguments of the upsert.
pub data Reading : Type 0 where
  done : SetOutcome → Reading
  ready : RawdbMeta → Option Text → List (FileMeta × FileSizeInfo) → Reading

-- `?` on an S3 error
abbrev pub failed : S3Error → AppError
failed e = other

module _ {St : Type 0} (s3 : S3 St) (from_utf8 : Bytes → Option Text)
    (from_str : Text → Option RawdbMeta) where
  unfoldable pub read_files : Text → Moments St → RawdbMeta → Option Text → Result AppError Reading
  read_files prefix t meta etag = elim (s3.list_objects prefix t.at_list) [
    | err e ↦ err (failed e)
    | ok objects ↦ elim (pair_files meta prefix objects) [
      | err gone ↦ ok (done (incomplete (missing gone)))
      | ok files ↦ ok (ready meta etag files)
    ]
  ]

  unfoldable pub read_body : Text → Moments St → HeadInfo → Result AppError Reading
  unfolding read_files
  read_body prefix t h = elim (s3.get_bytes (prefix ++ meta_file) t.at_get) [
    | err e ↦ err (failed e)
    | ok (bytes, etag) ↦ elim (parse_meta from_utf8 from_str bytes) [
      | err gap ↦ ok (done (incomplete gap))
      | ok meta ↦ read_files prefix t (with_date h.last_modified meta) etag
    ]
  ]

  -- the common part of `scan_one_set` and `scan_one_pending`, over the ETag of the row
  unfoldable pub read_entry : Option Text → Text → Moments St → Result AppError Reading
  unfolding read_body
  read_entry prior prefix t = elim (s3.head (prefix ++ meta_file) t.at_head) [
    | err e ↦ err (failed e)
    | ok none ↦ ok (done meta_missing)
    | ok (some h) ↦ if same_etag prior h.etag then ok (done unchanged) else read_body prefix t h
  ]
