-- ===== src/Admin/Before.antt =====
-- backend/src/routes/admin.rs: the meta before an edit, and what an edit carries over from it.
use rawdb.Base.{
  ◌≡◌, ◌≢◌, ◌⊎◌, inl, inr, refl, subst, ap, ◌++◌, ◌∙◌, Option, some, List, [], Text, ok, err,
  Result-cases,
}
use rawdb.S3.{S3, S3Error, Object, Bytes, IsStore}
use rawdb.Meta.{FileMeta, RawdbMeta, DateTime}
use rawdb.State.{Pod}
use rawdb.SyncTick.{Domain}
use rawdb.Admin.Edit.{EditFile, Existing, by_path, edited_files}
use rawdb.Admin.EditSet.{dropped, load_existing_file_meta, apply_edit}
use rawdb.Admin.Edits.{InPlace}
use rawdb.Meta.Laws.{Distinct, paths}
use rawdb.Meta.Quote.{to_toml}
use rawdb.Scanner.{meta_file}
use rawdb.Admin.Objects.{read_strict}
use rawdb.Admin.Kept.{read_strict-IsValidMeta}
use rawdb.Admin.Carried.{
  Each, IsEntry, edited_files-IsEntry, IsHashed, edited_files-IsHashed, NamesAll, NamesAll-dropped,
}

module _ {St : Type 0} {s3 : S3 St} (st : IsStore s3) (from_utf8 : Bytes → Option Text)
    (from_str : Text → Option RawdbMeta) (rfc3339 : DateTime → Text) (into_bytes : Text → Bytes)
    (tick : Domain → Bytes) where
  -- the files of the meta that is there before the edit
  abbrev pub files_before : Text → Pod St → Existing
  files_before prefix pod =
      load_existing_file_meta s3 from_utf8 from_str rfc3339 into_bytes tick prefix pod.store

  -- the meta before the edit can be read, and has the files `old`
  abbrev pub IsBefore : Text → Pod St → List FileMeta → Type 0
  IsBefore prefix pod old =
      (b : Bytes) × (etag : Option Text) × (meta : RawdbMeta) × (s3.get_bytes (prefix ++ meta_file)
          pod.store
        ≡ ok (b, etag))
      × (read_strict from_utf8 from_str b ≡ ok meta)
      × (meta.files ≡ old)

  pub files_before-IsBefore :
      (prefix : Text) (pod : Pod St) (old : List FileMeta)
      → IsBefore prefix pod old
      → (files_before prefix pod ≡ by_path old []) × Distinct (paths old)
  unfolding load_existing_file_meta
  files_before-IsBefore prefix pod old (b, etag, meta, g, r, e) = (
    rw (load_existing_file_meta, g, r) (ap (λ fs. by_path fs []) e),
    subst (λ fs. Distinct (paths fs)) e
        (read_strict-IsValidMeta from_utf8 from_str b meta r).distinct,
  )

  -- without such a meta, no file is known
  files_before-cases :
      (prefix : Text) (pod : Pod St)
      → ((old : List FileMeta) × IsBefore prefix pod old) ⊎ (files_before prefix pod ≡ [])
  unfolding load_existing_file_meta
  files_before-cases prefix pod =
      elim (Result-cases (s3.get_bytes (prefix ++ meta_file) pod.store)) [
        | inr (x, g) ↦ inr (rw (load_existing_file_meta, g) refl)
        | inl (got, g) ↦ elim (Result-cases (read_strict from_utf8 from_str got.0)) [
          | inr (x, r) ↦ inr (rw (load_existing_file_meta, g, r) refl)
          | inl (meta, r) ↦ inl (meta.files, (got.0, got.1, meta, g, r, refl))
        ]
      ]

  -- the entries of the new meta: the fields of the request, and the hashes of the old meta
  abbrev pub HasEntries : Text → List EditFile → Pod St → RawdbMeta → Type 0
  HasEntries prefix files pod meta =
      Each IsEntry files meta.files
      × ((old : List FileMeta) → IsBefore prefix pod old → Each (IsHashed old) files meta.files)

  pub entries-HasEntries :
      (prefix : Text) (files : List EditFile) (pod : Pod St) (meta : RawdbMeta)
      → meta.files ≡ edited_files (files_before prefix pod) files
      → HasEntries prefix files pod meta
  entries-HasEntries prefix files pod meta e = rw e (
    edited_files-IsEntry (files_before prefix pod) files,
    λ old b.
        let (k, d) = files_before-IsBefore prefix pod old b in
        rw k (edited_files-IsHashed old files d),
  )

  -- The meta is stored; if no file is renamed and `Kept` holds, every other object is as it was.
  abbrev pub IsStoredEdit : Text → List EditFile → Type 0 → RawdbMeta → St → St → Type 0
  IsStoredEdit prefix files Kept meta s t =
      ((o : Object) × (st.contents t (prefix ++ meta_file) ≡ some o)
        × (o.body ≡ into_bytes (to_toml rfc3339 meta)))
      × (InPlace st from_utf8 from_str rfc3339 into_bytes tick files
          → Kept
          → (j : Text) → j ≢ prefix ++ meta_file
          → st.contents t j ≡ st.contents s j)

  -- the service has failed during the moves, the deletions or the write, and nothing but the store has changed
  abbrev pub IsFailed : Text → List EditFile → Pod St → Pod St → Type 0
  IsFailed prefix files pod pod' =
      (x : S3Error) × (s : St) × (meta : RawdbMeta) × (more : List Text) × (apply_edit s3 from_utf8
          from_str rfc3339 into_bytes tick prefix files more meta pod.store
        ≡ (err x, s))
      × (pod' ≡ record pod { store = s })

  -- the request names every file of the old meta, if that can be read
  abbrev pub NamesOld : Text → List EditFile → Pod St → Type 0
  NamesOld prefix files pod = (old : List FileMeta) → IsBefore prefix pod old → NamesAll files old

  pub none_dropped :
      (prefix : Text) (files : List EditFile) (pod : Pod St)
      → NamesOld prefix files pod
      → dropped prefix files (files_before prefix pod) ≡ []
  unfolding dropped
  none_dropped prefix files pod n = elim (files_before-cases prefix pod) [
    | inl (old, b) ↦
        ap (dropped prefix files) (files_before-IsBefore prefix pod old b).0
        ∙ NamesAll-dropped prefix files old (n old b)
    | inr e ↦ ap (dropped prefix files) e
  ]
