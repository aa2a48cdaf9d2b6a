-- ===== src/Scanner/Sweep.antt =====
-- backend/src/cache/scanner.rs, `scan_samples`: which sets are in the cache after a pass.
use rawdb.Base.{◌≡◌, Bool, Option, List, Text, any, Result, ok, err}
use rawdb.Error.{AppError}
use rawdb.S3.{S3, Bytes}
use rawdb.Meta.{RawdbMeta}
use rawdb.Cache.{Cache, is_set}
use rawdb.Scanner.{split_set_prefix}
use rawdb.Scanner.Pass.{PassResult, same_key, keys_of}

-- whether the cache has a row for the set
abbrev pub is_cached : Text → Text → Cache → Bool
is_cached maker model c = any (is_set maker model) c.sets

module _ {St : Type 0} (s3 : S3 St) (from_utf8 : Bytes → Option Text)
    (from_str : Text → Option RawdbMeta) where
  -- the effect of a pass on a set that is cached
  abbrev pub IsMirrored :
      Text
      → Text
      → Cache
      → Result AppError (List Text)
      → Result AppError PassResult × Cache
      → Type 0
  IsMirrored maker model c (err e) out = out ≡ (err e, c)
  IsMirrored maker model c (ok prefixes) (r, c') =
      is_cached maker model c' ≡ any (same_key (maker, model)) (keys_of split_set_prefix prefixes)
