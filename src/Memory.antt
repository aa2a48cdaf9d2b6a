-- ===== src/Memory.antt =====
-- An S3 service in memory, the simplest that behaves as documented: an association list from keys to
-- bodies; the ETag of an object is its body. The tests run on it.
pub mod Laws
pub mod Streams
use rawdb.Base.{
  Bool, true, false, ◌&&◌, Option, none, some, List, [], ◌∷◌, ◌++◌, Text, codes, ◌==◌, length,
  strip_prefix, lookup, insert, Result, ok, err, if◌then◌else◌,
}
use rawdb.S3.{
  S3, S3Error, Bytes, Object, ObjectInfo, head_info, quoted, not_found, precondition_failed,
}

abbrev pub Memory : Type 0
Memory = List (Text × Bytes)

abbrev pub object_of : Bytes → Object
object_of b = record { body = b; size = length b; etag = some b; last_modified = none }

abbrev pub object : Option Bytes → Option Object
object none = none
object (some b) = some (object_of b)

unfoldable pub stored : Text → Memory → Option Object
stored k s = object (lookup k s)

unfoldable pub etag_is : Text → Option Object → Bool
etag_is q none = false
etag_is q (some o) = elim o.etag [ none ↦ false | some e ↦ q == quoted e ]

unfoldable pub matched : Option Text → Option Object → Bool
matched none old = true
matched (some q) old = etag_is q old

unfoldable pub unmatched : Option Text → Option Object → Bool
unmatched none old = true
unmatched (some q) none = true
unmatched (some q) (some o) = false

unfoldable pub get_body : Text → Option Object → Result S3Error (Bytes × Option Text)
get_body k none = err (not_found k)
get_body k (some o) = ok (o.body, o.etag)

unfoldable pub put_if : Text → Bytes → Memory → Bool → Result S3Error Text × Memory
put_if k b s true = (ok b, insert k b s)
put_if k b s false = (err precondition_failed, s)

unfoldable pub remove : Text → Memory → Memory
remove k [] = []
remove k ((j, o) ∷ s) = let rest = remove k s in if k == j then rest else (j, o) ∷ rest

unfoldable pub remove_all : List Text → Memory → Memory
remove_all [] s = s
remove_all (k ∷ ks) s = remove k (remove_all ks s)

unfoldable pub copy_from : Text → Text → Option Object → Memory → Result S3Error (Unit {0}) × Memory
copy_from a b none s = (err (not_found a), s)
copy_from a b (some o) s = (ok tt, insert b o.body s)

unfoldable pub under : Text → Memory → List ObjectInfo
under p [] = []
under p ((k, o) ∷ s) =
    let rest = under p s in
    elim (strip_prefix p k) [
      | none ↦ rest
      | some r ↦ record { key = k; size = length o; etag = some o; last_modified = none } ∷ rest
    ]

unfoldable pub memory : S3 Memory
unfolding stored insert matched unmatched etag_is get_body put_if remove remove_all copy_from under
memory = record {
  head = λ k s. ok (head_info (stored k s));
  get_bytes = λ k s. get_body k (stored k s);
  list_objects = λ p s. ok (under p s);
  list_common_prefixes = λ p s. ok [];
  put_bytes = λ k b m n s. put_if k b s (matched m (stored k s) && unmatched n (stored k s));
  copy = λ a b s. copy_from a b (stored a s) s;
  delete = λ k s. (ok tt, remove k s);
  delete_objects = λ ks s. (ok [], remove_all ks s);
  create_multipart_upload = λ k s. (ok (codes "upload"), s);
  presign_put = λ k s. ok (codes "https://s3/" ++ k);
  presign_upload_part = λ k u n s. ok (codes "https://s3/" ++ k);
}
