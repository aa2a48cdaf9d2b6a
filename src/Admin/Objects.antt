-- ===== src/Admin/Objects.antt =====
-- backend/src/routes/admin.rs: the steps on the objects of a set that the handlers share. A failure of
-- the service is an internal error.
use rawdb.Base.{Option, none, some, List, [], ◌∷◌, ◌++◌, Text, Result, ok, err, map_err}
use rawdb.Error.{AppError, other}
use rawdb.S3.{S3, S3Error, Bytes}
use rawdb.Meta.{FileMeta, RawdbMeta, DateTime, parse}
use rawdb.Meta.Quote.{to_toml}
use rawdb.Scanner.{samples_prefix, meta_file}

-- the prefix of the objects of a set
abbrev pub set_prefix : Text → Text → Text
set_prefix maker model = samples_prefix ++ maker ++ b'/' ∷ model ++ b'/' ∷ []

-- a strict read of a meta that is about to be rewritten: whatever is wrong with it is an internal error
unfoldable pub read_strict :
    (Bytes → Option Text) → (Text → Option RawdbMeta) → Bytes → Result AppError RawdbMeta
read_strict from_utf8 from_str bytes = elim (from_utf8 bytes) [
  | none ↦ err other
  | some s ↦ map_err (λ e. other) (parse from_str s)
]

module _ {St : Type 0} (s3 : S3 St) where
  -- the copies of the selected files, in the order of the meta; the program issues them at once
  unfoldable pub copy_files : Text → Text → List FileMeta → St → Result S3Error (Unit {0}) × St
  copy_files from to [] s = (ok tt, s)
  copy_files from to (f ∷ fs) s =
      let out = s3.copy (from ++ f.path) (to ++ f.path) s in
      elim out.0 [ err e ↦ (err e, out.1) | ok u ↦ copy_files from to fs out.1 ]

  -- the write of the meta of a set
  unfoldable pub put_meta :
      (DateTime → Text) → (Text → Bytes) → Text → RawdbMeta → St → Result S3Error Text × St
  put_meta rfc3339 into_bytes prefix meta s =
      s3.put_bytes (prefix ++ meta_file) (into_bytes (to_toml rfc3339 meta)) none none s
