-- ===== src/Meta/Laws.antt =====
-- What `validate` accepts, stated without its tests.
use rawdb.Base.{
  ◌≤◌, ◌≡◌, refl, sym, subst, ◌≢◌, ◌↔◌, inl, inr, true, false, List, [], ◌∷◌, Text, codes, ◌==◌,
  eq_iff, eq_sound, any, All, All-map, length, is_empty, contains, starts_with, split, join, Lacks,
  split-join, join-split, split-Lacks, contains_iff_split, any-false-All, All-any-false, HasText,
  trim, trim_iff, ok, Bool-cases, arith,
}
use rawdb.Meta.{RawdbMeta, FileMeta, validate, validate_files, validate_path, bad_segment}

-- A path segment that can be joined to a directory name without leaving the directory.
abbrev pub IsSegment : Text → Type 0
IsSegment seg = (seg ≢ codes ".") × (seg ≢ codes "..") × (seg ≢ []) × Lacks b'/' seg

-- Two segments at least, of which the first is the category folder.
pub record IsFilePath (path : Text) : Type 0 where
  pub segments : List Text
  pub joined : join b'/' segments ≡ path
  pub plain : All IsSegment segments
  pub deep : 2 ≤ length segments

good-IsSegment : (seg : Text) → bad_segment seg ≡ false → Lacks b'/' seg → IsSegment seg
unfolding bad_segment
good-IsSegment [] h k = ground arith
good-IsSegment (c ∷ s) h k = ground (arith, eq_iff (c ∷ s) (codes "."), eq_iff (c ∷ s) (codes ".."))

bad_segment-false : (seg : Text) → IsSegment seg → bad_segment seg ≡ false
unfolding bad_segment
bad_segment-false [] h = absurd (h.2 refl)
bad_segment-false (c ∷ s) h =
    ground (arith, eq_iff (c ∷ s) (codes "."), eq_iff (c ∷ s) (codes ".."))

All-both {ℓ κ μ ν} :
    {A : Type ℓ} (P : A → Type κ) (Q : A → Type μ) (R : A → Type ν) (xs : List A)
    → ((x : A) → P x → Q x → R x)
    → All P xs
    → All Q xs
    → All R xs
All-both P Q R [] f h k = tt
All-both P Q R (x ∷ xs) f h k = (f x h.0 k.0, All-both P Q R xs f h.1 k.1)

validate_path-ok :
    (p : Text)
    → validate_path p ≡ ok tt
    → (contains b'/' p ≡ true) × (any bad_segment (split b'/' p) ≡ false)
unfolding validate_path
validate_path-ok p h = ground arith

validate_path_tests :
    (p : Text)
    → is_empty p ≡ false
    → starts_with b'/' p ≡ false
    → contains b'/' p ≡ true
    → any bad_segment (split b'/' p) ≡ false
    → validate_path p ≡ ok tt
unfolding validate_path
validate_path_tests p h k l m = ground arith

segments_accepted :
    (segs : List Text)
    → All IsSegment segs
    → 2 ≤ length segs
    → validate_path (join b'/' segs) ≡ ok tt
segments_accepted [] h d = absurd (omega arith)
segments_accepted (a ∷ []) h d = absurd (omega arith)
segments_accepted ([] ∷ b ∷ r) h d = absurd (h.0.2 refl)
segments_accepted ((c ∷ a) ∷ b ∷ r) h d =
    validate_path_tests (join b'/' ((c ∷ a) ∷ b ∷ r)) refl (ground (arith, h.0.3.0))
      ((contains_iff_split b'/' (join b'/' ((c ∷ a) ∷ b ∷ r))).1 (rw pieces (omega arith)))
      (rw pieces (All-any-false bad_segment IsSegment ((c ∷ a) ∷ b ∷ r) bad_segment-false h))
  where
    pieces : split b'/' (join b'/' ((c ∷ a) ∷ b ∷ r)) ≡ (c ∷ a) ∷ b ∷ r
    pieces =
        split-join b'/' (c ∷ a) (b ∷ r)
          (All-map IsSegment (Lacks b'/') ((c ∷ a) ∷ b ∷ r) (λ s i. i.3) h)

-- `validate_path` accepts a text exactly if it consists of two segments at least, joined by "/",
-- none of them empty, "." or "..".
pub validate_path_iff : (p : Text) → (validate_path p ≡ ok tt) ↔ IsFilePath p
validate_path_iff p = (
  accepted,
  λ f. subst (λ q. validate_path q ≡ ok tt) f.joined (segments_accepted f.segments f.plain f.deep),
)
  where
    accepted : validate_path p ≡ ok tt → IsFilePath p
    accepted h = record {
      segments = split b'/' p;
      joined = join-split b'/' p;
      plain =
          All-both (λ s. bad_segment s ≡ false) (Lacks b'/') IsSegment (split b'/' p) good-IsSegment
            (any-false-All bad_segment (λ s. bad_segment s ≡ false) (split b'/' p) (λ s e. e)
              (validate_path-ok p h).1)
            (split-Lacks b'/' p);
      deep = (contains_iff_split b'/' p).0 (validate_path-ok p h).0;
    }

abbrev pub Distinct : List Text → Type 0
Distinct [] = Unit
Distinct (p ∷ ps) = All (λ q. q ≢ p) ps × Distinct ps

abbrev pub paths : List FileMeta → List Text
paths [] = []
paths (f ∷ fs) = f.path ∷ paths fs

-- what the loop demands of the paths that are left
abbrev Accepts : List Text → List Text → Type 0
Accepts seen [] = Unit
Accepts seen (p ∷ ps) = IsFilePath p × All (λ q. q ≢ p) seen × Accepts (p ∷ seen) ps

ne_of_test : (p q : Text) → (q == p) ≡ false → q ≢ p
ne_of_test p q h e = ground (arith, (eq_iff q p).1 e)

test_of_ne : (p q : Text) → q ≢ p → (q == p) ≡ false
test_of_ne p q h = elim (Bool-cases (q == p)) [ inl e ↦ absurd (h (eq_sound q p e)) | inr e ↦ e ]

validate_files-ok :
    (seen : List Text) (f : FileMeta) (fs : List FileMeta)
    → validate_files seen (f ∷ fs) ≡ ok tt
    → (validate_path f.path ≡ ok tt)
      × (any (λ p. p == f.path) seen ≡ false)
      × (validate_files (f.path ∷ seen) fs ≡ ok tt)
unfolding validate_files
validate_files-ok seen f fs h = ground arith

validate_files-Accepts :
    (seen : List Text) (fs : List FileMeta)
    → validate_files seen fs ≡ ok tt
    → Accepts seen (paths fs)
validate_files-Accepts seen [] h = tt
validate_files-Accepts seen (f ∷ fs) h =
    let (good, fresh, rest) = validate_files-ok seen f fs h in
    (
      (validate_path_iff f.path).0 good,
      any-false-All (λ p. p == f.path) (λ q. q ≢ f.path) seen (ne_of_test f.path) fresh,
      validate_files-Accepts (f.path ∷ seen) fs rest,
    )

Accepts-validate_files :
    (seen : List Text) (fs : List FileMeta)
    → Accepts seen (paths fs)
    → validate_files seen fs ≡ ok tt
unfolding validate_files
Accepts-validate_files seen [] h = refl
Accepts-validate_files seen (f ∷ fs) (good, fresh, rest) =
    let valid = (validate_path_iff f.path).1 good in
    let unseen =
      All-any-false (λ p. p == f.path) (λ q. q ≢ f.path) seen (test_of_ne f.path) fresh in
    rw valid (rw unseen (Accepts-validate_files (f.path ∷ seen) fs rest))

Accepts-Distinct :
    (seen ps : List Text)
    → Accepts seen ps
    → All IsFilePath ps × Distinct ps × All (λ p. All (λ q. q ≢ p) seen) ps
Accepts-Distinct seen [] h = (tt, tt, tt)
Accepts-Distinct seen (p ∷ ps) (good, fresh, rest) =
    let (goods, distinct, apart) = Accepts-Distinct (p ∷ seen) ps rest in
    (
      (good, goods),
      (
        All-map (λ x. All (λ q. q ≢ x) (p ∷ seen)) (λ y. y ≢ p) ps (λ x a e. a.0 (sym e)) apart,
        distinct,
      ),
      (
        fresh,
        All-map (λ x. All (λ q. q ≢ x) (p ∷ seen)) (λ x. All (λ q. q ≢ x) seen) ps (λ x a. a.1)
            apart,
      ),
    )

Distinct-Accepts :
    (seen ps : List Text)
    → All IsFilePath ps
    → Distinct ps
    → All (λ p. All (λ q. q ≢ p) seen) ps
    → Accepts seen ps
Distinct-Accepts seen [] h d a = tt
Distinct-Accepts seen (p ∷ ps) h d a = (
  h.0,
  a.0,
  Distinct-Accepts (p ∷ seen) ps h.1 d.1 (
      All-both (λ y. y ≢ p) (λ x. All (λ q. q ≢ x) seen) (λ x. All (λ q. q ≢ x) (p ∷ seen)) ps
        (λ x n m. ((λ e. n (sym e)), m)) d.0 a.1),
)

-- What a valid `rawdb-meta.toml` is.
pub record IsValidMeta (meta : RawdbMeta) : Type 0 where
  pub maker : HasText meta.set.maker
  pub model : HasText meta.set.model
  pub file_paths : All IsFilePath (paths meta.files)
  pub distinct : Distinct (paths meta.files)

validate-ok :
    (meta : RawdbMeta)
    → validate meta ≡ ok tt
    → (is_empty (trim meta.set.maker) ≡ false)
      × (is_empty (trim meta.set.model) ≡ false)
      × (validate_files [] meta.files ≡ ok tt)
unfolding validate
validate-ok meta h = ground arith

All-trivial : (ps : List Text) → All (λ p. All (λ q. q ≢ p) []) ps
All-trivial [] = tt
All-trivial (p ∷ ps) = (tt, All-trivial ps)

validate_tests :
    (meta : RawdbMeta)
    → is_empty (trim meta.set.maker) ≡ false
    → is_empty (trim meta.set.model) ≡ false
    → validate_files [] meta.files ≡ ok tt
    → validate meta ≡ ok tt
unfolding validate
validate_tests meta h k l = ground arith

-- `validate` accepts a meta file exactly if its maker and model are not blank and its file paths
-- are distinct, each of two plain segments at least.
pub validate_iff : (meta : RawdbMeta) → (validate meta ≡ ok tt) ↔ IsValidMeta meta
validate_iff meta = (accepted, complete)
  where
    accepted : validate meta ≡ ok tt → IsValidMeta meta
    accepted h =
        let (maker, model, files) = validate-ok meta h in
        let (goods, distinct, apart) =
          Accepts-Distinct [] (paths meta.files) (validate_files-Accepts [] meta.files files) in
        record {
          maker = (trim_iff meta.set.maker).0 maker;
          model = (trim_iff meta.set.model).0 model;
          file_paths = goods;
          distinct = distinct;
        }

    complete : IsValidMeta meta → validate meta ≡ ok tt
    complete v =
        validate_tests meta ((trim_iff meta.set.maker).1 v.maker)
          ((trim_iff meta.set.model).1 v.model)
          (Accepts-validate_files [] meta.files (
            Distinct-Accepts [] (paths meta.files) v.file_paths v.distinct
              (All-trivial (paths meta.files))))
