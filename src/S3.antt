-- ===== src/S3.antt =====
-- backend/src/s3.rs: what the program uses of an S3 service, and the methods of `S3` that are
-- more than one request. The service is a parameter, `S3 St`, with a state `St` of its own;
-- `IsStore` is its documented behaviour.

pub mod Download
pub mod Resume
pub mod Recover
mod Tests
use rawdb.Base.{
  ℕ, ◌≡◌, ◌⊎◌, Option, none, some, List, [], ◌∷◌, ◌++◌, Text, codes, ◌==◌, Result, ok, err,
  if◌then◌else◌, Any, All, contains, false,
}

abbrev pub Bytes : Type 0
Bytes = List ℕ

pub record HeadInfo : Type 0 where
  pub size : ℕ
  pub etag : Option Text
  pub last_modified : Option ℕ

pub record ObjectInfo : Type 0 where
  pub key : Text
  pub size : ℕ
  pub etag : Option Text
  pub last_modified : Option ℕ

pub data S3Error : Type 0 where
  not_found : Text → S3Error
  precondition_failed other : S3Error

-- The requests. A read answers from the state; a write answers with the next state too.
pub record S3 (St : Type 0) : Type 0 where
  pub head : Text → St → Result S3Error (Option HeadInfo)
  pub get_bytes : Text → St → Result S3Error (Bytes × Option Text)
  pub list_objects : Text → St → Result S3Error (List ObjectInfo)
  pub list_common_prefixes : Text → St → Result S3Error (List Text)
  -- key, body, `If-Match`, `If-None-Match`; the answer is the new ETag
  pub put_bytes : Text → Bytes → Option Text → Option Text → St → Result S3Error Text × St
  pub copy : Text → Text → St → Result S3Error (Unit {0}) × St
  pub delete : Text → St → Result S3Error (Unit {0}) × St
  -- one `DeleteObjects` request; the answer has the keys for which the service reports an error
  pub delete_objects : List Text → St → Result S3Error (List Text) × St
  pub presign_put : Text → St → Result S3Error Text
  pub presign_upload_part : Text → Text → ℕ → St → Result S3Error Text
  pub create_multipart_upload : Text → St → Result S3Error Text × St

-- An object as the service keeps it.
pub record Object : Type 0 where
  pub body : Bytes
  pub size : ℕ
  pub etag : Option Text
  pub last_modified : Option ℕ

abbrev pub head_info : Option Object → Option HeadInfo
head_info none = none
head_info (some o) = some (record { size = o.size; etag = o.etag; last_modified = o.last_modified })

-- the header value `"{etag}"`
abbrev pub quoted : Text → Text
quoted etag = 34 ∷ etag ++ 34 ∷ []

-- A key without `%` and `+`. Of these `url_encode_key` escapes neither, and S3 decodes the header
-- that names the source of a copy, so only a plain key is sure to be read as itself.
abbrev pub IsPlainKey : Text → Type 0
IsPlainKey k = (contains b'%' k ≡ false) × (contains b'+' k ≡ false)

-- What S3 documents: reads see every earlier write, and a conditional write takes effect only if
-- its condition holds at that moment.
pub record IsStore {St : Type 0} (s3 : S3 St) : Type 0 where
  pub contents : St → Text → Option Object
  pub head_sound :
      (k : Text) (s : St) (i : Option HeadInfo) → s3.head k s ≡ ok i → head_info (contents s k) ≡ i
  pub get_sound :
      (k : Text) (s : St) (b : Bytes) (e : Option Text)
      → s3.get_bytes k s ≡ ok (b, e)
      → (o : Object) × (contents s k ≡ some o) × (o.body ≡ b) × (o.etag ≡ e)
  pub get_absent :
      (k j : Text) (s : St) → s3.get_bytes k s ≡ err (not_found j) → contents s k ≡ none
  -- a listing has every object under its prefix
  pub list_complete :
      (p k : Text) (s : St) (l : List ObjectInfo) (o : Object)
      → s3.list_objects p s ≡ ok l
      → contents s (p ++ k) ≡ some o
      → Any (λ i. i.key ≡ p ++ k) l
  -- and no other
  pub list_sound :
      (p : Text) (s : St) (l : List ObjectInfo)
      → s3.list_objects p s ≡ ok l
      → All (λ i. (k : Text) × (i.key ≡ p ++ k)) l
  pub put_sound :
      (k : Text) (b : Bytes) (m n : Option Text) (s s' : St) (e : Text)
      → s3.put_bytes k b m n s ≡ (ok e, s')
      → (o : Object) × (o.body ≡ b)
        × (o.etag ≡ some e)
        × ((j : Text) → contents s' j ≡ (if k == j then some o else contents s j))
  pub put_matched :
      (k : Text) (b : Bytes) (m e : Text) (n : Option Text) (s s' : St)
      → s3.put_bytes k b (some (quoted m)) n s ≡ (ok e, s')
      → (o : Object) × (contents s k ≡ some o) × (o.etag ≡ some m)
  pub put_created :
      (k : Text) (b : Bytes) (e : Text) (s s' : St)
      → s3.put_bytes k b none (some (codes "*")) s ≡ (ok e, s')
      → contents s k ≡ none
  pub put_refused :
      (k : Text) (b : Bytes) (m n : Option Text) (s s' : St)
      → s3.put_bytes k b m n s ≡ (err precondition_failed, s')
      → (j : Text) → contents s' j ≡ contents s j
  pub copy_sound :
      (a b : Text) (s s' : St)
      → s3.copy a b s ≡ (ok tt, s')
      → (o' : Object) × (IsPlainKey a
          → (o : Object) × (contents s a ≡ some o) × (o'.body ≡ o.body) × (o'.size ≡ o.size))
        × ((j : Text) → contents s' j ≡ (if b == j then some o' else contents s j))
  pub delete_sound :
      (k : Text) (s s' : St)
      → s3.delete k s ≡ (ok tt, s')
      → (j : Text) → contents s' j ≡ (if k == j then none else contents s j)
  pub delete_objects_sound :
      (ks failed : List Text) (s s' : St)
      → s3.delete_objects ks s ≡ (ok failed, s')
      → (j : Text)
      → (Any (λ k. k ≡ j) ks → contents s' j ≡ none ⊎ Any (λ k. k ≡ j) failed)
        × (¬ Any (λ k. k ≡ j) ks → contents s' j ≡ contents s j)
