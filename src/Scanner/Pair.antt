-- ===== src/Scanner/Pair.antt =====
-- backend/src/cache/scanner.rs, `pair_files`: the files of a set against the listing of its prefix.
use rawdb.Base.{
  ℕ, ◌≡◌, ◌≢◌, refl, ap, subst, Option, none, some, Option-cases, List, [], ◌∷◌, ◌++◌, map, inl,
  inr, ◌⊎◌, Text, eq_iff, eq_sound, strip_prefix, lookup, lookup-insert, All, Any, Any-map, All-map,
  Result, ok, err, arith,
}
use rawdb.S3.{ObjectInfo}
use rawdb.Meta.{FileMeta, RawdbMeta}
use rawdb.Cache.{FileSizeInfo}
use rawdb.Scanner.{
  meta_file, Index, index_objects, put_object, paired, missing_paths, pairing, pair_files,
}

pub strip_prefix_sound : (p s r : Text) → strip_prefix p s ≡ some r → s ≡ p ++ r
unfolding strip_prefix
strip_prefix_sound [] s r h = ground arith
strip_prefix_sound (x ∷ p) [] r h = ground arith
strip_prefix_sound (x ∷ p) (c ∷ s) r h = ground (arith, strip_prefix_sound p s r)

pub strip_prefix-append : (p r : Text) → strip_prefix p (p ++ r) ≡ some r
unfolding strip_prefix
strip_prefix-append [] r = refl
strip_prefix-append (x ∷ p) r = ground (arith, strip_prefix-append p r)

-- an object of the listing, with the size and the ETag `v`, is the file `path`
abbrev IsAt : Text → Text → ℕ × Option Text → ObjectInfo → Type 0
IsAt prefix path v o = (o.key ≡ prefix ++ path) × ((o.size, o.etag) ≡ v)

abbrev pub IsListed : Text → List ObjectInfo → Text → Type 0
IsListed prefix objects path = Any (λ o. o.key ≡ prefix ++ path) objects

put_object_sound :
    (prefix path : Text) (o : ObjectInfo) (m : Index) (v : ℕ × Option Text)
    → lookup path (put_object prefix o m) ≡ some v
    → (lookup path m ≡ some v) ⊎ IsAt prefix path v o
unfolding put_object
put_object_sound prefix path o m v h = elim (Option-cases (strip_prefix prefix o.key)) [
  | inl e ↦ inl (rw (e, put_object) at h)
  | inr (rel, e) ↦ ground (
    arith,
    lookup-insert rel path (o.size, o.etag) m,
    eq_sound rel path,
    strip_prefix_sound prefix o.key rel,
  )
]

put_object-keeps :
    (prefix path : Text) (o : ObjectInfo) (m : Index)
    → lookup path m ≢ none
    → lookup path (put_object prefix o m) ≢ none
unfolding put_object
put_object-keeps prefix path o m h = elim (Option-cases (strip_prefix prefix o.key)) [
  | inl e ↦ rw (e, put_object) h
  | inr (rel, e) ↦ ground (arith, lookup-insert rel path (o.size, o.etag) m)
]

put_object-has :
    (prefix path : Text) (o : ObjectInfo) (m : Index)
    → o.key ≡ prefix ++ path
    → path ≢ meta_file
    → lookup path (put_object prefix o m) ≢ none
unfolding put_object
put_object-has prefix path o m e n = ground (
  arith,
  ap (strip_prefix prefix) e,
  strip_prefix-append prefix path,
  eq_sound path meta_file,
  lookup-insert path path (o.size, o.etag) m,
  eq_iff path path,
)

index_objects_sound :
    (prefix path : Text) (os : List ObjectInfo) (m : Index) (v : ℕ × Option Text)
    → lookup path (index_objects prefix os m) ≡ some v
    → (lookup path m ≡ some v) ⊎ Any (IsAt prefix path v) os
unfolding index_objects
index_objects_sound prefix path [] m v h = inl h
index_objects_sound prefix path (o ∷ os) m v h =
    elim (index_objects_sound prefix path os (put_object prefix o m) v h) [
      | inl a ↦ elim (put_object_sound prefix path o m v a) [ inl b ↦ inl b | inr b ↦ inr (inl b) ]
      | inr b ↦ inr (inr b)
    ]

index_objects-keeps :
    (prefix path : Text) (os : List ObjectInfo) (m : Index)
    → lookup path m ≢ none
    → lookup path (index_objects prefix os m) ≢ none
unfolding index_objects
index_objects-keeps prefix path [] m h = h
index_objects-keeps prefix path (o ∷ os) m h =
    index_objects-keeps prefix path os _ (put_object-keeps prefix path o m h)

index_objects_complete :
    (prefix path : Text) (os : List ObjectInfo) (m : Index)
    → path ≢ meta_file
    → IsListed prefix os path
    → lookup path (index_objects prefix os m) ≢ none
unfolding index_objects
index_objects_complete prefix path [] m n h = absurd h
index_objects_complete prefix path (o ∷ os) m n (inl e) =
    index_objects-keeps prefix path os _ (put_object-has prefix path o m e n)
index_objects_complete prefix path (o ∷ os) m n (inr a) =
    index_objects_complete prefix path os _ n a

missing_paths-nil :
    (m : Index) (fs : List FileMeta) → missing_paths m fs ≡ [] → map (λ g. g.0) (paired m fs) ≡ fs
unfolding missing_paths paired
missing_paths-nil m [] h = refl
missing_paths-nil m (f ∷ fs) h = elim (Option-cases (lookup f.path m)) [
  | inl e ↦ ground arith
  | inr (v, e) ↦
      rw (e, paired) (ap (λ l. f ∷ l) (missing_paths-nil m fs (rw (e, missing_paths) at h)))
]

paired-All :
    (m : Index) (fs : List FileMeta)
    → All (λ g. lookup g.0.path m ≡ some (g.1.size, g.1.etag)) (paired m fs)
unfolding paired
paired-All m [] = tt
paired-All m (f ∷ fs) = elim (Option-cases (lookup f.path m)) [
  | inl e ↦ rw (e, paired) (paired-All m fs)
  | inr (v, e) ↦ rw (e, paired) (e, paired-All m fs)
]

missing_paths-All :
    (m : Index) (fs : List FileMeta) → All (λ p. lookup p m ≡ none) (missing_paths m fs)
unfolding missing_paths
missing_paths-All m [] = tt
missing_paths-All m (f ∷ fs) = elim (Option-cases (lookup f.path m)) [
  | inl e ↦ rw (e, missing_paths) (e, missing_paths-All m fs)
  | inr (v, e) ↦ rw (e, missing_paths) (missing_paths-All m fs)
]

missing_paths_complete :
    (m : Index) (fs : List FileMeta)
    → All (λ f. lookup f.path m ≡ none → Any (λ p. p ≡ f.path) (missing_paths m fs)) fs
unfolding missing_paths
missing_paths_complete m [] = tt
missing_paths_complete m (f ∷ fs) = elim (Option-cases (lookup f.path m)) [
  | inl e ↦ (
    λ h. rw (e, missing_paths) (inl refl),
    All-map _ _ fs (λ g k h. rw (e, missing_paths) (inr (k h))) (missing_paths_complete m fs),
  )
  | inr (v, e) ↦ (
    λ h. ground arith,
    All-map _ _ fs (λ g k h. rw (e, missing_paths) (k h)) (missing_paths_complete m fs),
  )
]

-- an object of the listing is the file `g.0`, with the size and the ETag of `g.1`
abbrev pub IsFileObject : Text → FileMeta × FileSizeInfo → ObjectInfo → Type 0
IsFileObject prefix g o = (o.key ≡ prefix ++ g.0.path) × (o.size ≡ g.1.size) × (o.etag ≡ g.1.etag)

-- Either every file of the meta is paired, in the order of the meta, with an object of the listing;
-- or the answer names every file that is not in the listing, and only such files.
abbrev pub IsPairing :
    RawdbMeta
    → Text
    → List ObjectInfo
    → Result (List Text) (List (FileMeta × FileSizeInfo))
    → Type 0
IsPairing meta prefix objects (ok out) =
    (map (λ g. g.0) out ≡ meta.files) × All (λ g. Any (IsFileObject prefix g) objects) out
IsPairing meta prefix objects (err gone) =
    (gone ≢ [])
    × All (λ p. p ≢ meta_file → ¬ IsListed prefix objects p) gone
    × All (λ f. ¬ IsListed prefix objects f.path → Any (λ p. p ≡ f.path) gone) meta.files

file_object :
    (prefix : Text) (objects : List ObjectInfo) (g : FileMeta × FileSizeInfo)
    → lookup g.0.path (index_objects prefix objects []) ≡ some (g.1.size, g.1.etag)
    → Any (IsFileObject prefix g) objects
unfolding lookup
file_object prefix objects g h = elim (index_objects_sound prefix g.0.path objects [] _ h) [
  | inl a ↦ cc
  | inr a ↦ Any-map _ _ objects (λ o k. (k.0, ap (λ q. q.0) k.1, ap (λ q. q.1) k.1)) a
]

unlisted :
    (prefix : Text) (objects : List ObjectInfo) (path : Text)
    → ¬ IsListed prefix objects path
    → lookup path (index_objects prefix objects []) ≡ none
unfolding lookup
unlisted prefix objects path n =
    elim (Option-cases (lookup path (index_objects prefix objects []))) [
      | inl e ↦ e
      | inr (v, e) ↦ elim (index_objects_sound prefix path objects [] v e) [
        | inl a ↦ cc
        | inr a ↦ absurd (n (Any-map _ _ objects (λ o k. k.0) a))
      ]
    ]

pairing_cases :
    (meta : RawdbMeta) (prefix : Text) (objects : List ObjectInfo) (gone : List Text)
    → missing_paths (index_objects prefix objects []) meta.files ≡ gone
    → IsPairing meta prefix objects
        (pairing (paired (index_objects prefix objects []) meta.files) gone)
unfolding pairing
pairing_cases meta prefix objects [] e = (
  missing_paths-nil _ meta.files e,
  All-map _ _ _ (file_object prefix objects) (paired-All _ meta.files),
)
pairing_cases meta prefix objects (p ∷ ps) e = (
  λ h. cc,
  subst (All _) e (
      All-map _ _ _ (λ q h n a. index_objects_complete prefix q objects [] n a h)
        (missing_paths-All _ meta.files)),
  subst (λ l. All (λ f. ¬ IsListed prefix objects f.path → Any (λ q. q ≡ f.path) l) meta.files) e
      (All-map _ _ _ (λ f k n. k (unlisted prefix objects f.path n))
        (missing_paths_complete _ meta.files)),
)

-- The answer has every file of the meta once, in the order of the meta, with the size and the ETag of
-- a listed object that has its key; or it is an error that names some file, among them each file that
-- is not listed, and no listed file except the meta file itself.
pub pair_files-IsPairing :
    (meta : RawdbMeta) (prefix : Text) (objects : List ObjectInfo)
    → IsPairing meta prefix objects (pair_files meta prefix objects)
unfolding pair_files
pair_files-IsPairing meta prefix objects = pairing_cases meta prefix objects _ refl
