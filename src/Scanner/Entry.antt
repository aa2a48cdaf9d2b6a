-- ===== src/Scanner/Entry.antt =====
-- backend/src/cache/scanner.rs, `scan_one_set` and `scan_one_pending`: what a worker may write.
use rawdb.Base.{
  ◌∙◌, ◌≡◌, ◌≢◌, refl, ap, Option, none, some, Bool-cases, Result-cases, List, ◌++◌, map, inl, inr,
  Text, Any, All, Result, ok, err,
}
use rawdb.Error.{AppError}
use rawdb.S3.{S3, Bytes, ObjectInfo, HeadInfo, Object, head_info, IsStore}
use rawdb.Meta.{FileMeta, RawdbMeta, DateTime}
use rawdb.Cache.{
  Cache, FileSizeInfo, upsert_set, double_path, get_set_meta_etag, upsert_pending,
  get_pending_meta_etag,
}
use rawdb.Scanner.{
  meta_file, SetOutcome, updated, unchanged, meta_missing, incomplete, Reading, done, ready,
  missing, Moments, parse_meta, with_date, same_etag, read_files, read_body, read_entry,
}
use rawdb.Scanner.Pair.{IsPairing, pair_files-IsPairing, IsFileObject}
use rawdb.Scanner.Pass.{scan_one_set, scan_one_pending, store_set, store_pending}

head_none : (o : Option Object) → head_info o ≡ none → o ≡ none
head_none none h = refl
head_none (some o) h = cc

head_some : (o : Option Object) (i : HeadInfo) → head_info o ≡ some i → o ≢ none
head_some none i h = cc
head_some (some o) i h = λ k. cc

module _ {St : Type 0} {s3 : S3 St} (st : IsStore s3) (from_utf8 : Bytes → Option Text)
    (from_str : Text → Option RawdbMeta) where
  -- The meta with its ETag is one object, as it stood at the moment of the GET; the files are those
  -- of this meta, each with the size and the ETag of an object that was listed.
  pub record IsRead (prefix : Text) (t : Moments St) (meta : RawdbMeta) (etag : Option Text)
      (files : List (FileMeta × FileSizeInfo)) : Type 0 where
    pub object : Object
    pub present : st.contents t.at_get (prefix ++ meta_file) ≡ some object
    pub same : object.etag ≡ etag
    pub parsed : RawdbMeta
    pub reading : parse_meta from_utf8 from_str object.body ≡ ok parsed
    pub modified : Option DateTime
    pub dated : with_date modified parsed ≡ meta
    pub objects : List ObjectInfo
    pub listed : s3.list_objects prefix t.at_list ≡ ok objects
    pub in_order : map (λ g. g.0) files ≡ meta.files
    pub sized : All (λ g. Any (IsFileObject prefix g) objects) files

  abbrev IsReading : Text → Moments St → Result AppError Reading → Type 0
  IsReading prefix t (err e) = Unit
  IsReading prefix t (ok (done updated)) = ⊥
  IsReading prefix t (ok (done unchanged)) = st.contents t.at_head (prefix ++ meta_file) ≢ none
  IsReading prefix t (ok (done meta_missing)) = st.contents t.at_head (prefix ++ meta_file) ≡ none
  IsReading prefix t (ok (done (incomplete gap))) = Unit
  IsReading prefix t (ok (ready meta etag files)) = IsRead prefix t meta etag files

  paired-IsReading :
      (prefix : Text) (t : Moments St) (o : Object) (parsed : RawdbMeta)
      (modified : Option DateTime) (objects : List ObjectInfo) (etag : Option Text)
      → o.etag ≡ etag
      → st.contents t.at_get (prefix ++ meta_file) ≡ some o
      → parse_meta from_utf8 from_str o.body ≡ ok parsed
      → s3.list_objects prefix t.at_list ≡ ok objects
      → (r : Result (List Text) (List (FileMeta × FileSizeInfo)))
      → IsPairing (with_date modified parsed) prefix objects r
      → IsReading prefix t (elim r [
        | err gone ↦ ok (done (incomplete (missing gone)))
        | ok files ↦ ok (ready (with_date modified parsed) etag files)
      ])
  paired-IsReading prefix t o parsed modified objects etag q h k l (err gone) p = tt
  paired-IsReading prefix t o parsed modified objects etag q h k l (ok files) p = record {
    object = o;
    present = h;
    same = q;
    parsed = parsed;
    reading = k;
    modified = modified;
    dated = refl;
    objects = objects;
    listed = l;
    in_order = p.0;
    sized = p.1;
  }

  read_files-IsReading :
      (prefix : Text) (t : Moments St) (o : Object) (parsed : RawdbMeta)
      (modified : Option DateTime) (etag : Option Text)
      → o.etag ≡ etag
      → st.contents t.at_get (prefix ++ meta_file) ≡ some o
      → parse_meta from_utf8 from_str o.body ≡ ok parsed
      → IsReading prefix t
          (read_files s3 from_utf8 from_str prefix t (with_date modified parsed) etag)
  unfolding read_files
  read_files-IsReading prefix t o parsed modified etag q h k =
      elim (Result-cases (s3.list_objects prefix t.at_list)) [
        | inl (objects, e) ↦
            rw (e, read_files)
              (paired-IsReading prefix t o parsed modified objects etag q h k e _
                (pair_files-IsPairing (with_date modified parsed) prefix objects))
        | inr (x, e) ↦ rw (e, read_files) tt
      ]

  body-IsReading :
      (prefix : Text) (t : Moments St) (o : Object) (modified : Option DateTime) (b : Bytes)
      (etag : Option Text)
      → st.contents t.at_get (prefix ++ meta_file) ≡ some o
      → o.body ≡ b
      → o.etag ≡ etag
      → (r : Result _ RawdbMeta) → parse_meta from_utf8 from_str b ≡ r
      → IsReading prefix t (elim r [
        | err gap ↦ ok (done (incomplete gap))
        | ok m ↦ read_files s3 from_utf8 from_str prefix t (with_date modified m) etag
      ])
  body-IsReading prefix t o modified b etag h q w (err gap) e = tt
  body-IsReading prefix t o modified b etag h q w (ok m) e =
      read_files-IsReading prefix t o m modified etag w h (ap (parse_meta from_utf8 from_str) q ∙ e)

  read_body-IsReading :
      (prefix : Text) (t : Moments St) (h : HeadInfo)
      → IsReading prefix t (read_body s3 from_utf8 from_str prefix t h)
  unfolding read_body
  read_body-IsReading prefix t h =
      elim (Result-cases (s3.get_bytes (prefix ++ meta_file) t.at_get)) [
        | inr (x, e) ↦ rw (e, read_body) tt
        | inl ((b, etag), e) ↦
            let (o, p, q, r) = st.get_sound _ _ b etag e in
            rw (e, read_body) (body-IsReading prefix t o h.last_modified b etag p q r _ refl)
      ]

  read_entry-IsReading :
      (prior : Option Text) (prefix : Text) (t : Moments St)
      → IsReading prefix t (read_entry s3 from_utf8 from_str prior prefix t)
  unfolding read_entry
  read_entry-IsReading prior prefix t =
      elim (Result-cases (s3.head (prefix ++ meta_file) t.at_head)) [
        | inr (x, e) ↦ rw (e, read_entry) tt
        | inl (none, e) ↦ rw (e, read_entry) (head_none _ (st.head_sound _ _ none e))
        | inl (some h, e) ↦ elim (Bool-cases (same_etag prior h.etag)) [
          | inl q ↦ rw (e, read_entry, q) (head_some _ h (st.head_sound _ _ (some h) e))
          | inr q ↦ rw (e, read_entry, q) (read_body-IsReading prefix t h)
        ]
      ]

  -- A worker changes the cache only by the upsert of a complete reading.
  abbrev pub IsSetScan : Moments St → Text → Cache → Result AppError SetOutcome × Cache → Type 0
  IsSetScan t prefix c (ok updated, c') =
      (meta : RawdbMeta) × (etag : Option Text) × (files : List (FileMeta × FileSizeInfo)) × IsRead
        prefix t meta etag files
      × ((ok tt, c') ≡ upsert_set meta etag files c)
  IsSetScan t prefix c (ok unchanged, c') =
      (c' ≡ c) × (st.contents t.at_head (prefix ++ meta_file) ≢ none)
  IsSetScan t prefix c (ok meta_missing, c') =
      (c' ≡ c) × (st.contents t.at_head (prefix ++ meta_file) ≡ none)
  IsSetScan t prefix c (ok (incomplete gap), c') = c' ≡ c
  IsSetScan t prefix c (err e, c') = c' ≡ c

  store_set-IsSetScan :
      (t : Moments St) (prefix : Text) (c : Cache) (r : Result AppError Reading)
      → IsReading prefix t r
      → IsSetScan t prefix c (store_set c r)
  unfolding store_set upsert_set
  store_set-IsSetScan t prefix c (err e) h = refl
  store_set-IsSetScan t prefix c (ok (done updated)) h = absurd h
  store_set-IsSetScan t prefix c (ok (done unchanged)) h = (refl, h)
  store_set-IsSetScan t prefix c (ok (done meta_missing)) h = (refl, h)
  store_set-IsSetScan t prefix c (ok (done (incomplete gap))) h = refl
  store_set-IsSetScan t prefix c (ok (ready meta etag files)) h =
      elim (Bool-cases (double_path files)) [
        | inl e ↦ rw (e, upsert_set) refl
        | inr e ↦ rw (e, upsert_set) (meta, etag, files, h, rw (e, upsert_set) refl)
      ]

  -- The worker of a set writes the cache only with a complete reading: the meta and the ETag of one
  -- object that stood in the store at the moment of the GET, and exactly the files of this meta, each
  -- with the size and the ETag of a listed object. Each other outcome leaves the cache as it was, and
  -- the outcome that the meta is gone is given only if the store did not have it.
  pub scan_one_set-IsSetScan :
      (t : Moments St) (prefix maker model : Text) (c : Cache)
      → IsSetScan t prefix c (scan_one_set s3 from_utf8 from_str t prefix maker model c)
  unfolding scan_one_set
  scan_one_set-IsSetScan t prefix maker model c =
      store_set-IsSetScan t prefix c _
        (read_entry-IsReading (get_set_meta_etag maker model c) prefix t)

  abbrev pub IsPendingScan :
      Moments St → Text → Text → Cache → Result AppError SetOutcome × Cache → Type 0
  IsPendingScan t prefix id c (ok updated, c') =
      (meta : RawdbMeta) × (etag : Option Text) × (files : List (FileMeta × FileSizeInfo)) × IsRead
        prefix t meta etag files
      × ((ok tt, c') ≡ upsert_pending id meta etag files c)
  IsPendingScan t prefix id c (ok unchanged, c') =
      (c' ≡ c) × (st.contents t.at_head (prefix ++ meta_file) ≢ none)
  IsPendingScan t prefix id c (ok meta_missing, c') =
      (c' ≡ c) × (st.contents t.at_head (prefix ++ meta_file) ≡ none)
  IsPendingScan t prefix id c (ok (incomplete gap), c') = c' ≡ c
  IsPendingScan t prefix id c (err e, c') = c' ≡ c

  store_pending-IsPendingScan :
      (t : Moments St) (prefix id : Text) (c : Cache) (r : Result AppError Reading)
      → IsReading prefix t r
      → IsPendingScan t prefix id c (store_pending id c r)
  unfolding store_pending upsert_pending
  store_pending-IsPendingScan t prefix id c (err e) h = refl
  store_pending-IsPendingScan t prefix id c (ok (done updated)) h = absurd h
  store_pending-IsPendingScan t prefix id c (ok (done unchanged)) h = (refl, h)
  store_pending-IsPendingScan t prefix id c (ok (done meta_missing)) h = (refl, h)
  store_pending-IsPendingScan t prefix id c (ok (done (incomplete gap))) h = refl
  store_pending-IsPendingScan t prefix id c (ok (ready meta etag files)) h =
      elim (Bool-cases (double_path files)) [
        | inl e ↦ rw (e, upsert_pending) refl
        | inr e ↦ rw (e, upsert_pending) (meta, etag, files, h, rw (e, upsert_pending) refl)
      ]

  -- The worker of a pending upload writes the cache only with a complete reading, as that of a set:
  -- the meta and the ETag of one object at the moment of the GET, and exactly the files of this meta,
  -- each with the size and the ETag of a listed object. Each other outcome leaves the cache as it was,
  -- and the outcome that the meta is gone is given only if the store did not have it.
  pub scan_one_pending-IsPendingScan :
      (t : Moments St) (prefix id : Text) (c : Cache)
      → IsPendingScan t prefix id c (scan_one_pending s3 from_utf8 from_str t prefix id c)
  unfolding scan_one_pending
  scan_one_pending-IsPendingScan t prefix id c =
      store_pending-IsPendingScan t prefix id c _
        (read_entry-IsReading (get_pending_meta_etag id c) prefix t)
