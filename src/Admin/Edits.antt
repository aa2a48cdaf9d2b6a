-- ===== src/Admin/Edits.antt =====
-- backend/src/routes/admin.rs: what an edit of a set or of an upload does on each branch.
use rawdb.Base.{
  ◌≡◌, ◌≢◌, inl, inr, refl, sym, ap, ◌∙◌, Bool, true, false, Bool-cases, Option, none, some,
  Option-cases, List, [], ◌∷◌, ◌++◌, Text, ◌==◌, eq_iff, any, any_iff, Any, All, trim, Result, ok,
  err, if◌then◌else◌,
}
use rawdb.Error.{AppError}
use rawdb.S3.{S3, S3Error, Object, Bytes, IsStore}
use rawdb.Meta.{RawdbMeta, DateTime}
use rawdb.Meta.Quote.{to_toml}
use rawdb.SyncTick.{Domain}
use rawdb.Scanner.{meta_file}
use rawdb.Upload.{blocked_extension}
use rawdb.Admin.Objects.{put_meta}
use rawdb.Admin.Copies.{if_false, if_true}
use rawdb.Admin.Edit.{EditFile, Existing, is_bad_path, check_paths}
use rawdb.Admin.EditSet.{
  is_referenced, text_le, insert_sorted, missing_files, move_files, delete_keys, put_after,
  delete_after, apply_edit,
}

-- the destinations of a request
abbrev pub targets : List EditFile → List Text
targets [] = []
targets (f ∷ fs) = trim f.path ∷ targets fs

-- each destination passes the tests on paths and is not among those before it
abbrev pub IsFresh : List Text → List EditFile → Type 0
IsFresh seen [] = Unit
IsFresh seen (f ∷ fs) =
    (is_bad_path (trim f.path) ≡ false)
    × ¬ Any (λ q. q ≡ trim f.path) seen
    × IsFresh (trim f.path ∷ seen) fs

pub check_paths-IsFresh :
    (blocked seen : List Text) (fs : List EditFile)
    → check_paths blocked seen fs ≡ ok tt
    → IsFresh seen fs
unfolding check_paths
check_paths-IsFresh blocked seen [] h = tt
check_paths-IsFresh blocked seen (f ∷ fs) h = elim (Bool-cases (is_bad_path (trim f.path))) [
  | inl b ↦ absurd (refused (rw (check_paths, b) at h))
  | inr b ↦ elim (Bool-cases (any (λ q. q == trim f.path) seen)) [
    | inl a ↦ absurd (refused (rw (check_paths, b, a) at h))
    | inr a ↦ elim (Option-cases (blocked_extension (trim f.path) blocked)) [
      | inr (e, x) ↦ absurd (refused (rw (check_paths, b, a, x) at h))
      | inl x ↦ (
        b,
        (λ w. differs a (
            (any_iff (λ q. q == trim f.path) (λ q. q ≡ trim f.path) seen
                (λ q. eq_iff q (trim f.path))).1
              w)),
        check_paths-IsFresh blocked (trim f.path ∷ seen) fs (rw (check_paths, b, a, x) at h),
      )
    ]
  ]
]
  where
    refused : {x : AppError} → ◌≡◌ {A = Result AppError (Unit {0})} (err x) (ok tt) → ⊥
    refused w = cc

    differs : {b : Bool} → b ≡ false → b ≡ true → ⊥
    differs p q = cc

insert_sorted-nonempty : (p : Text) (qs : List Text) → insert_sorted p qs ≢ []
unfolding insert_sorted
insert_sorted-nonempty p [] = λ e. cc
insert_sorted-nonempty p (q ∷ qs) = go (text_le p q)
  where
    go : (b : Bool) → (if b then p ∷ q ∷ qs else q ∷ insert_sorted p qs) ≢ []
    go true e = cc
    go false e = cc

-- nothing is missing: the request names every file of the map
pub missing_files-none :
    (files : List EditFile) (known : Existing)
    → missing_files files known ≡ []
    → All (λ slot. Any (λ f. f.old_path ≡ slot.0) files) known
unfolding missing_files
missing_files-none files [] h = tt
missing_files-none files (slot ∷ known) h = elim (Bool-cases (is_referenced files slot.0)) [
  | inl e ↦ (
    (any_iff (λ f. f.old_path == slot.0) (λ f. f.old_path ≡ slot.0) files
          (λ f. eq_iff f.old_path slot.0)).0
        e,
    missing_files-none files known (rw e at h),
  )
  | inr e ↦ absurd (insert_sorted-nonempty slot.0 (missing_files files known) (rw e at h))
]

module _ {St : Type 0} {s3 : S3 St} (st : IsStore s3) (from_utf8 : Bytes → Option Text)
    (from_str : Text → Option RawdbMeta) (rfc3339 : DateTime → Text) (into_bytes : Text → Bytes)
    (tick : Domain → Bytes) where
  -- no file is renamed
  abbrev pub InPlace : List EditFile → Type 0
  InPlace files = All (λ f. f.old_path ≡ f.path) files

  -- The meta is written at the end; where no file is renamed or dropped, every other object is as it was.
  abbrev pub IsApplied : Text → List EditFile → List Text → RawdbMeta → St → St → Type 0
  IsApplied prefix files more meta s t =
      ((o : Object) × (st.contents t (prefix ++ meta_file) ≡ some o)
        × (o.body ≡ into_bytes (to_toml rfc3339 meta)))
      × (InPlace files
          → more ≡ []
          → (j : Text) → j ≢ prefix ++ meta_file
          → st.contents t j ≡ st.contents s j)

  move_files-InPlace :
      (prefix : Text) (all files : List EditFile) (s : St)
      → InPlace files
      → move_files s3 from_utf8 from_str rfc3339 into_bytes tick prefix all files [] s ≡ (ok [], s)
  unfolding move_files
  move_files-InPlace prefix all [] s a = refl
  move_files-InPlace prefix all (f ∷ fs) s (e, a) =
      rw (move_files, (eq_iff f.old_path f.path).1 e) (move_files-InPlace prefix all fs s a)

  pub apply_edit-IsApplied :
      (prefix : Text) (files : List EditFile) (more : List Text) (meta : RawdbMeta) (s t : St)
      (etag : Text)
      → apply_edit s3 from_utf8 from_str rfc3339 into_bytes tick prefix files more meta s
        ≡ (ok etag, t)
      → IsApplied prefix files more meta s t
  unfolding apply_edit delete_keys
  apply_edit-IsApplied prefix files more meta s t etag h =
      moved (move_files s3 from_utf8 from_str rfc3339 into_bytes tick prefix files files [] s) refl
        h
    where
      refused :
          {x : S3Error} {r : St} → ◌≡◌ {A = Result S3Error Text × St} (err x, r) (ok etag, t) → ⊥
      refused w = failed (ap (λ q. q.0) w)
        where
          failed : {x : S3Error} → ◌≡◌ {A = Result S3Error Text} (err x) (ok etag) → ⊥
          failed q = cc

      written :
          (r : St)
          → (InPlace files → more ≡ [] → r ≡ s)
          → put_meta s3 rfc3339 into_bytes prefix meta r ≡ (ok etag, t)
          → IsApplied prefix files more meta s t
      written r same w =
          let (o, body, tag, new) =
            st.put_sound (prefix ++ meta_file) (into_bytes (to_toml rfc3339 meta)) none none r t
              etag w in
          (
            (
              o,
              new (prefix ++ meta_file)
                  ∙ if_true _ _ (prefix ++ meta_file) (prefix ++ meta_file) refl,
              body,
            ),
            λ i m j n.
                new j
                ∙ if_false _ _ (prefix ++ meta_file) j (λ e. n (sym e))
                ∙ ap (λ q. st.contents q j) (same i m),
          )

      emptied :
          (r : St)
          → (InPlace files → more ≡ [] → r ≡ s)
          → (v : Result S3Error (Unit {0}) × St) → (InPlace files → more ≡ [] → v.1 ≡ r)
          → put_after s3 from_utf8 from_str rfc3339 into_bytes tick prefix meta v ≡ (ok etag, t)
          → IsApplied prefix files more meta s t
      emptied r same (err x, q) e w = absurd (refused w)
      emptied r same (ok u, q) e w = written q (λ i m. e i m ∙ same i m) w

      moved :
          (v : Result S3Error (List Text) × St)
          → move_files s3 from_utf8 from_str rfc3339 into_bytes tick prefix files files [] s ≡ v
          → delete_after s3 from_utf8 from_str rfc3339 into_bytes tick prefix meta more v
            ≡ (ok etag, t)
          → IsApplied prefix files more meta s t
      moved (err x, r) e w = absurd (refused w)
      moved (ok keys, r) e w =
          emptied r (λ i m. ap (λ q. q.1) (sym e ∙ move_files-InPlace prefix files files s i))
            (delete_keys s3 from_utf8 from_str rfc3339 into_bytes tick (keys ++ more) r)
            (λ i m.
              ap (λ ks. (delete_keys s3 from_utf8 from_str rfc3339 into_bytes tick ks r).1)
                (ap (λ ks. ks ++ more) (no_keys i) ∙ m))
            w
        where
          listed : Result S3Error (List Text) → List Text
          listed (ok ks) = ks
          listed (err e) = keys

          no_keys : InPlace files → keys ≡ []
          no_keys i = ap (λ q. listed q.0) (sym e ∙ move_files-InPlace prefix files files s i)
