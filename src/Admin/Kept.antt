-- ===== src/Admin/Kept.antt =====
-- backend/src/routes/admin.rs: the meta that `delete_set_file` writes.
use rawdb.Base.{
  ℕ, ◌≡◌, ◌≢◌, ◌⊎◌, inl, inr, refl, sym, subst, ap, ◌∙◌, Bool, true, false, not, Bool-cases, Option,
  Option-cases, List, [], ◌∷◌, Text, ◌==◌, eq_iff, retain, length, length-retain, ◌<◌, eqb, All,
  Any, Result, ok, err, map_err, if◌then◌else◌, arith,
}
use rawdb.Error.{AppError, not_found, bad_request, other, last_file}
use rawdb.S3.{Bytes}
use rawdb.Meta.{FileMeta, RawdbMeta, MetaError, parse}
use rawdb.Meta.Laws.{IsValidMeta}
use rawdb.Meta.Plain.{parse-IsValidMeta, files-ne-meta}
use rawdb.Scanner.{meta_file}
use rawdb.Admin.Objects.{read_strict}
use rawdb.Admin.Remove.{nonempty, without_file}

retain-same :
    (path : Text) (fs : List FileMeta)
    → All (λ f. f.path ≢ path) fs
    → retain (λ f. not (f.path == path)) fs ≡ fs
unfolding retain
retain-same path [] a = refl
retain-same path (f ∷ fs) (n, a) = elim (Bool-cases (f.path == path)) [
  | inl e ↦ absurd (n ((eq_iff f.path path).0 e))
  | inr e ↦ rw (retain, e) (ap (λ r. f ∷ r) (retain-same path fs a))
]

retain-All :
    (path : Text) (fs : List FileMeta)
    → All (λ f. f.path ≢ path) (retain (λ f. not (f.path == path)) fs)
unfolding retain
retain-All path [] = tt
retain-All path (f ∷ fs) = go (f.path == path) refl (retain-All path fs)
  where
    go :
        (b : Bool)
        → (f.path == path) ≡ b
        → All (λ g. g.path ≢ path) (retain (λ g. not (g.path == path)) fs)
        → All
            (λ g. g.path ≢ path)
            (elim (not b) [
              | true ↦ f ∷ retain (λ g. not (g.path == path)) fs
              | false ↦ retain (λ g. not (g.path == path)) fs
            ])
    go true e a = a
    go false e a = ((λ w. differs e ((eq_iff f.path path).1 w)), a)
      where
        differs : {b : Bool} → b ≡ false → b ≡ true → ⊥
        differs p q = cc

-- the meta without the file, which it had, and which leaves another one
abbrev pub IsWithout : Text → RawdbMeta → RawdbMeta → Type 0
IsWithout path parsed meta =
    (path ≢ meta_file)
    × Any (λ f. f.path ≡ path) parsed.files
    × (meta.files ≢ [])
    × All (λ f. f.path ≢ path) meta.files
    × (meta ≡ record parsed { files = retain (λ f. not (f.path == path)) parsed.files })

has_path :
    (path : Text) (fs : List FileMeta) → All (λ f. f.path ≢ path) fs ⊎ Any (λ f. f.path ≡ path) fs
has_path path [] = inl tt
has_path path (f ∷ fs) = elim (Bool-cases (f.path == path)) [
  | inl e ↦ inr (inl ((eq_iff f.path path).0 e))
  | inr e ↦ elim (has_path path fs) [
    | inl a ↦ inl ((λ w. differs e ((eq_iff f.path path).1 w)), a)
    | inr a ↦ inr (inr a)
  ]
]
  where
    differs : {b : Bool} → b ≡ false → b ≡ true → ⊥
    differs p q = cc

pub without_file-ok :
    (path : Text) (parsed meta : RawdbMeta)
    → IsValidMeta parsed
    → without_file path parsed ≡ ok meta
    → IsWithout path parsed meta
unfolding without_file
without_file-ok path parsed meta v h =
    go (retain (λ f. not (f.path == path)) parsed.files) refl
      (Bool-cases (eqb _ (length parsed.files))) h
  where
    go :
        (kept : List FileMeta)
        → retain (λ f. not (f.path == path)) parsed.files ≡ kept
        → (eqb (length kept) (length parsed.files) ≡ true)
          ⊎ (eqb (length kept) (length parsed.files) ≡ false)
        → (if eqb (length kept) (length parsed.files) then err not_found else nonempty parsed kept)
          ≡ ok meta
        → IsWithout path parsed meta
    go kept e (inl q) w = absurd (refused (rw q at w))
      where
        refused : ◌≡◌ {A = Result AppError RawdbMeta} (err not_found) (ok meta) → ⊥
        refused w = cc
    go [] e (inr q) w = absurd (refused (rw q at w))
      where
        refused : ◌≡◌ {A = Result AppError RawdbMeta} (err (bad_request last_file)) (ok meta) → ⊥
        refused w = cc
    go (f ∷ fs) e (inr q) w = (
      named,
      found (has_path path parsed.files),
      (λ n. some_files (files ∙ n)),
      subst (All (λ g. g.path ≢ path)) (e ∙ files) (retain-All path parsed.files),
      sym (taken (rw q at w)) ∙ ap (λ r. record parsed { files = r }) (sym e),
    )
      where
        taken : {m : RawdbMeta} → ◌≡◌ {A = Result AppError RawdbMeta} (ok m) (ok meta) → m ≡ meta
        taken w = cc

        files : f ∷ fs ≡ meta.files
        files = ap (λ (m : RawdbMeta). m.files) (taken (rw q at w))

        some_files : f ∷ fs ≢ []
        some_files n = cc

        apart : (a b : ℕ) → eqb a b ≡ false → a ≢ b
        apart a b p w = ground arith

        lost : ¬ All (λ g. g.path ≢ path) parsed.files
        lost a =
            apart (length (f ∷ fs)) (length parsed.files) q
              (ap length (sym e ∙ retain-same path parsed.files a))

        found :
            All (λ g. g.path ≢ path) parsed.files ⊎ Any (λ g. g.path ≡ path) parsed.files
            → Any (λ g. g.path ≡ path) parsed.files
        found (inl a) = absurd (lost a)
        found (inr a) = a

        named : path ≢ meta_file
        named n =
            lost (subst (λ p. All (λ g. g.path ≢ p) parsed.files) (sym n) (files-ne-meta parsed v))

length-without :
    (path : Text) (fs : List FileMeta)
    → Any (λ f. f.path ≡ path) fs
    → length (retain (λ f. not (f.path == path)) fs) < length fs
unfolding retain
length-without path [] a = absurd a
length-without path (f ∷ fs) a = elim (Bool-cases (f.path == path)) [
  | inl e ↦ rw (retain, e) (let l = length-retain (λ g. not (g.path == path)) fs in omega arith)
  | inr e ↦ rw (retain, e) (let l = length-without path fs (rest e a) in omega arith)
]
  where
    rest :
        (f.path == path) ≡ false → Any (λ g. g.path ≡ path) (f ∷ fs) → Any (λ g. g.path ≡ path) fs
    rest e (inl k) = absurd (differs e ((eq_iff f.path path).1 k))
      where
        differs : {b : Bool} → b ≡ false → b ≡ true → ⊥
        differs p q = cc
    rest e (inr a) = a

-- and such a meta is what `without_file` gives
pub IsWithout-without_file :
    (path : Text) (parsed meta : RawdbMeta)
    → IsWithout path parsed meta
    → without_file path parsed ≡ ok meta
unfolding without_file
IsWithout-without_file path parsed meta (n, a, left, out, e) =
    rw (without_file, shorter (length-without path parsed.files a))
      (some_left _ (λ k. left (ap (λ (m : RawdbMeta). m.files) e ∙ k)) ∙ ap ok (sym e))
  where
    shorter :
        length (retain (λ f. not (f.path == path)) parsed.files) < length parsed.files
        → eqb (length (retain (λ f. not (f.path == path)) parsed.files)) (length parsed.files)
          ≡ false
    shorter l = ground arith

    some_left :
        (fs : List FileMeta) → fs ≢ [] → nonempty parsed fs ≡ ok (record parsed { files = fs })
    some_left [] k = absurd (k refl)
    some_left (f ∷ fs) k = refl

pub read_strict-IsValidMeta :
    (from_utf8 : Bytes → Option Text) (from_str : Text → Option RawdbMeta) (bytes : Bytes)
    (meta : RawdbMeta)
    → read_strict from_utf8 from_str bytes ≡ ok meta
    → IsValidMeta meta
unfolding read_strict
read_strict-IsValidMeta from_utf8 from_str bytes meta h = elim (Option-cases (from_utf8 bytes)) [
  | inl e ↦ absurd (refused (rw (read_strict, e) at h))
  | inr (s, e) ↦
      parse-IsValidMeta from_str s meta (parsed (parse from_str s) (rw (read_strict, e) at h))
]
  where
    refused : {x : AppError} → ◌≡◌ {A = Result AppError RawdbMeta} (err x) (ok meta) → ⊥
    refused w = cc

    parsed : (r : Result MetaError RawdbMeta) → map_err (λ e. other) r ≡ ok meta → r ≡ ok meta
    parsed (ok m) q = cc
    parsed (err e) q = cc
