-- ===== src/Admin/Merged.antt =====
-- backend/src/routes/admin.rs: what an approval is about: the files that are selected, the date, the approval
-- record and the files of the merged meta, each described apart from the code that computes it.
use rawdb.Base.{
  ◌≡◌, ◌≢◌, ◌⊎◌, ◌↔◌, inl, inr, refl, Bool, true, false, not, Bool-cases, Option, none, some, List,
  [], ◌∷◌, ◌++◌, Text, codes, ◌==◌, eq_iff, any, any_iff, retain, Any, All, All-map, Result, ok,
  err, Result-cases,
}
use rawdb.Error.{AppError}
use rawdb.S3.{S3, S3Error, HeadInfo, Bytes}
use rawdb.Meta.{SetMeta, FileMeta, RawdbMeta, DateTime}
use rawdb.Admin.Objects.{read_strict}
use rawdb.Admin.Selection.{conflict_mode, pin_date, last_modified_of, is_listed, selected}
use rawdb.Admin.Approve.{approved, merged_files, read_existing}

differs : {c : Bool} → c ≡ false → c ≡ true → ⊥
differs p q = cc

-- `ys` has the members of `xs` that are `P`, and no other
abbrev pub IsFilter : (FileMeta → Type 0) → List FileMeta → List FileMeta → Type 0
IsFilter P xs ys = All (λ y. Any (λ x. x ≡ y) xs × P y) ys × All (λ x. P x → Any (λ y. y ≡ x) ys) xs

IsFilter-self :
    (P : FileMeta → Type 0) (xs : List FileMeta) → ((x : FileMeta) → P x) → IsFilter P xs xs
IsFilter-self P [] h = (tt, tt)
IsFilter-self P (x ∷ xs) h =
    let (a, b) = IsFilter-self P xs h in
    (
      ((inl refl, h x), All-map _ _ xs (λ y (i, p). (inr i, p)) a),
      ((λ p. inl refl), All-map _ _ xs (λ y f p. inr (f p)) b),
    )

retain-IsFilter :
    (p : FileMeta → Bool) (P : FileMeta → Type 0) (xs : List FileMeta)
    → ((x : FileMeta) → (p x ≡ true) ↔ P x)
    → IsFilter P xs (retain p xs)
unfolding retain
retain-IsFilter p P [] h = (tt, tt)
retain-IsFilter p P (x ∷ xs) h = step (p x) refl (retain p xs) (retain-IsFilter p P xs h)
  where
    step :
        (b : Bool)
        → p x ≡ b
        → (ys : List FileMeta) → IsFilter P xs ys
        → IsFilter P (x ∷ xs) (elim b [ true ↦ x ∷ ys | false ↦ ys ])
    step true e ys (a, b) = (
      ((inl refl, (h x).0 e), All-map _ _ ys (λ y (i, q). (inr i, q)) a),
      ((λ q. inl refl), All-map _ _ xs (λ y f q. inr (f q)) b),
    )
    step false e ys (a, b) =
        (All-map _ _ ys (λ y (i, q). (inr i, q)) a, ((λ q. absurd (differs e ((h x).1 q))), b))

kept_iff :
    (path : Text) (promote : List FileMeta)
    → (not (any (λ g. g.path == path) promote) ≡ true) ↔ All (λ g. g.path ≢ path) promote
unfolding any
kept_iff path [] = ((λ e. tt), (λ a. refl))
kept_iff path (g ∷ gs) = elim (Bool-cases (g.path == path)) [
  | inl e ↦ ((λ h. absurd (no (rw (any, e) at h))), λ a. absurd (a.0 ((eq_iff g.path path).0 e)))
  | inr e ↦ (
    (λ h. ((λ w. differs e ((eq_iff g.path path).1 w)), (kept_iff path gs).0 (rw (any, e) at h))),
    λ a. rw (any, e) ((kept_iff path gs).1 a.1),
  )
]
  where
    no : false ≡ true → ⊥
    no w = cc

-- the files that are kept, of which none has the path of a promoted one, and then the promoted files
abbrev pub IsMerged : List FileMeta → List FileMeta → List FileMeta → Type 0
IsMerged existing promote files =
    (kept : List FileMeta) × (files ≡ kept ++ promote)
    × IsFilter (λ f. All (λ g. g.path ≢ f.path) promote) existing kept

pub merged_files-IsMerged :
    (existing promote : List FileMeta) → IsMerged existing promote (merged_files existing promote)
unfolding merged_files
merged_files-IsMerged existing promote =
    (_, refl, retain-IsFilter _ _ existing (λ f. kept_iff f.path promote))

-- an empty list of paths selects every file
abbrev pub IsSelected : List Text → FileMeta → Type 0
IsSelected paths f = paths ≡ [] ⊎ Any (λ p. p ≡ f.path) paths

pub selected-IsFilter :
    (paths : List Text) (files : List FileMeta)
    → IsFilter (IsSelected paths) files (selected paths files)
unfolding selected
selected-IsFilter [] files = IsFilter-self (IsSelected []) files (λ f. inl refl)
selected-IsFilter (q ∷ qs) files =
    retain-IsFilter (is_listed (q ∷ qs)) (IsSelected (q ∷ qs)) files (λ f. listed f)
  where
    here : (f : FileMeta) → (is_listed (q ∷ qs) f ≡ true) ↔ Any (λ p. p ≡ f.path) (q ∷ qs)
    here f = any_iff (λ p. p == f.path) (λ p. p ≡ f.path) (q ∷ qs) (λ p. eq_iff p f.path)

    listed : (f : FileMeta) → (is_listed (q ∷ qs) f ≡ true) ↔ IsSelected (q ∷ qs) f
    listed f = ((λ h. inr ((here f).0 h)), back)
      where
        back : IsSelected (q ∷ qs) f → is_listed (q ∷ qs) f ≡ true
        back (inl e) = cc
        back (inr a) = (here f).1 a

-- the record of the first approval: this one, or that of the set that exists
abbrev IsFirst : DateTime → Text → Option SetMeta → SetMeta → Type 0
IsFirst now by none set = (set.approved_initial_at ≡ some now) × (set.approved_initial_by ≡ some by)
IsFirst now by (some old) set =
    (set.approved_initial_at ≡ old.approved_initial_at)
    × (set.approved_initial_by ≡ old.approved_initial_by)

-- the approved set: what the uploader has written, with the date and the record of the approval
abbrev pub IsApprovedSet :
    DateTime → Text → Option DateTime → Option SetMeta → SetMeta → SetMeta → Type 0
IsApprovedSet now by date old up set =
    (set.maker ≡ up.maker)
    × (set.model ≡ up.model)
    × (set.license ≡ up.license)
    × (set.uploaded_by ≡ up.uploaded_by)
    × (set.notes ≡ up.notes)
    × (set.special ≡ up.special)
    × (set.uploaded_at ≡ date)
    × (set.approved_at ≡ some now)
    × (set.approved_by ≡ some by)
    × IsFirst now by old set

pub approved-IsApprovedSet :
    (now : DateTime) (by : Text) (date : Option DateTime) (old : Option SetMeta) (up : SetMeta)
    → IsApprovedSet now by date old up (approved now by old (record up { uploaded_at = date }))
unfolding approved
approved-IsApprovedSet now by date none up =
    (refl, refl, refl, refl, refl, refl, refl, refl, refl, (refl, refl))
approved-IsApprovedSet now by date (some old) up =
    (refl, refl, refl, refl, refl, refl, refl, refl, refl, (refl, refl))

-- the mode of the request, which is `refuse` where it names none
abbrev pub IsMode : Option Text → Text → Type 0
IsMode none mode = mode ≡ codes "refuse"
IsMode (some m) mode = mode ≡ m

pub conflict_mode-IsMode : (conflict : Option Text) → IsMode conflict (conflict_mode conflict)
conflict_mode-IsMode none = refl
conflict_mode-IsMode (some m) = refl

-- the date of the upload is that of its meta or, where it has none, the time of the meta's object
abbrev pub IsDated : {St : Type 0} → S3 St → Text → St → Option DateTime → Option DateTime → Type 0
IsDated s3 key s (some d) date = date ≡ some d
IsDated s3 key s none date =
    (head : Option HeadInfo) × (s3.head key s ≡ ok head) × (date ≡ last_modified_of head)

pub pin_date-IsDated :
    {St : Type 0} (s3 : S3 St) (key : Text) (s : St) (given date : Option DateTime)
    → pin_date s3 key s given ≡ ok date
    → IsDated s3 key s given date
unfolding pin_date
pin_date-IsDated s3 key s (some d) date h = cc
pin_date-IsDated s3 key s none date h = elim (Result-cases (s3.head key s)) [
  | inl (head, e) ↦ (head, e, cc (rw (pin_date, e) at h))
  | inr (x, e) ↦ absurd (no (rw (pin_date, e) at h))
]
  where
    no : {x : AppError} → ◌≡◌ {A = Result AppError (Option DateTime)} (err x) (ok date) → ⊥
    no w = cc

-- the files are those of the meta that was read
abbrev pub IsRead :
    (Bytes → Option Text)
    → (Text → Option RawdbMeta)
    → Result S3Error (Bytes × Option Text)
    → List FileMeta
    → Type 0
IsRead from_utf8 from_str got files =
    (b : Bytes) × (etag : Option Text) × (meta : RawdbMeta) × (got ≡ ok (b, etag))
    × (read_strict from_utf8 from_str b ≡ ok meta)
    × (files ≡ meta.files)

pub read_existing-IsRead :
    (from_utf8 : Bytes → Option Text) (from_str : Text → Option RawdbMeta)
    (got : Result S3Error (Bytes × Option Text)) (files : List FileMeta)
    → read_existing from_utf8 from_str got ≡ ok files
    → IsRead from_utf8 from_str got files
read_existing-IsRead from_utf8 from_str (err e) files h = cc
read_existing-IsRead from_utf8 from_str (ok (b, etag)) files h =
    read (read_strict from_utf8 from_str b) refl h
  where
    read :
        (r : Result AppError RawdbMeta)
        → read_strict from_utf8 from_str b ≡ r
        → (elim r [ err e ↦ err e | ok meta ↦ ok meta.files ]) ≡ ok files
        → IsRead from_utf8 from_str (ok (b, etag)) files
    read (err e) k w = cc
    read (ok meta) k w = (b, etag, meta, refl, k, cc)
