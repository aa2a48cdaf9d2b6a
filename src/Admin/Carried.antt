-- ===== src/Admin/Carried.antt =====
-- backend/src/routes/admin.rs: the meta that an edit writes, described apart from the code that computes it.
use rawdb.Base.{
  ◌≡◌, ◌≢◌, ◌⊎◌, inl, inr, refl, ap, ◌∙◌, true, false, Bool, Bool-cases, Option, none, some, List,
  [], ◌∷◌, Text, ◌==◌, eq_iff, any_iff, is_empty, trim, lookup, insert, lookup-insert, All-insert,
  Any, All, All-map, if◌then◌else◌,
}
use rawdb.Meta.{SetMeta, FileMeta, RawdbMeta, default_license}
use rawdb.Meta.Laws.{Distinct, paths}
use rawdb.Admin.Edit.{
  EditFile, EditRequest, EditSetRequest, Existing, not_blank, license_or_default, sha_of, by_path,
  edited_file, edited_files, edited_pending, edited_set,
}
use rawdb.Admin.EditSet.{dropped}
use rawdb.Admin.Tags.{clean_tags-IsClean}

-- an optional text that is dropped where it is blank
abbrev IsText : Option Text → Option Text → Type 0
IsText none out = out ≡ none
IsText (some s) out =
    (is_empty (trim s) ≡ true) × (out ≡ none) ⊎ (is_empty (trim s) ≡ false) × (out ≡ some s)

not_blank-IsText : (given : Option Text) → IsText given (not_blank given)
not_blank-IsText none = refl
not_blank-IsText (some s) = blank (is_empty (trim s)) refl
  where
    blank :
        (b : Bool)
        → is_empty (trim s) ≡ b
        → (is_empty (trim s) ≡ true) × ((if b then none else some s) ≡ none)
          ⊎ (is_empty (trim s) ≡ false) × ((if b then none else some s) ≡ some s)
    blank true e = inl (e, refl)
    blank false e = inr (e, refl)

abbrev IsLicense : Text → Text → Type 0
IsLicense given out =
    (is_empty (trim given) ≡ true) × (out ≡ default_license)
    ⊎ (is_empty (trim given) ≡ false) × (out ≡ given)

license_or_default-IsLicense : (given : Text) → IsLicense given (license_or_default given)
license_or_default-IsLicense given = blank (is_empty (trim given)) refl
  where
    blank :
        (b : Bool)
        → is_empty (trim given) ≡ b
        → (is_empty (trim given) ≡ true)
            × ((if b then default_license else given) ≡ default_license)
          ⊎ (is_empty (trim given) ≡ false) × ((if b then default_license else given) ≡ given)
    blank true e = inl (e, refl)
    blank false e = inr (e, refl)

-- the tags are distinct, and they are the trimmed items that are not empty
abbrev IsTags : List Text → List Text → Type 0
IsTags items tags =
    Distinct tags
    × All (λ t. (t ≢ []) × Any (λ raw. trim raw ≡ t) items) tags
    × All (λ raw. (trim raw ≡ []) ⊎ Any (λ t. t ≡ trim raw) tags) items

-- the entry of a file, but for its hash
abbrev pub IsEntry : EditFile → FileMeta → Type 0
IsEntry f g =
    (g.path ≡ trim f.path)
    × IsText f.license g.license
    × IsText f.notes g.notes
    × IsTags f.tags g.tags

-- the hash of a file is that of the old file which the request names, and there is none without such a file
abbrev pub IsHashed : List FileMeta → EditFile → FileMeta → Type 0
IsHashed old f g =
    All (λ o. o.path ≡ f.old_path → g.sha256 ≡ o.sha256) old
    × (All (λ o. o.path ≢ f.old_path) old → g.sha256 ≡ none)

-- one entry for each file of the request, in its order
abbrev pub Each : (EditFile → FileMeta → Type 0) → List EditFile → List FileMeta → Type 0
Each P [] [] = Unit {0}
Each P [] (g ∷ gs) = ⊥
Each P (f ∷ fs) [] = ⊥
Each P (f ∷ fs) (g ∷ gs) = P f g × Each P fs gs

Each-edited_files :
    (P : EditFile → FileMeta → Type 0) (known : Existing) (fs : List EditFile)
    → ((f : EditFile) → P f (edited_file known f))
    → Each P fs (edited_files known fs)
unfolding edited_files
Each-edited_files P known [] h = tt
Each-edited_files P known (f ∷ fs) h = (h f, Each-edited_files P known fs h)

pub edited_files-IsEntry :
    (known : Existing) (fs : List EditFile) → Each IsEntry fs (edited_files known fs)
unfolding edited_file
edited_files-IsEntry known fs = Each-edited_files IsEntry known fs (λ f. entry f)
  where
    entry : (f : EditFile) → IsEntry f (edited_file known f)
    entry f =
        (refl, not_blank-IsText f.license, not_blank-IsText f.notes, clean_tags-IsClean f.tags)

lookup-by_path_other :
    (p : Text) (fs : List FileMeta) (known : Existing)
    → All (λ g. g.path ≢ p) fs
    → lookup p (by_path fs known) ≡ lookup p known
unfolding by_path
lookup-by_path_other p [] known a = refl
lookup-by_path_other p (f ∷ fs) known (n, a) =
    lookup-by_path_other p fs (insert f.path f known) a
    ∙ lookup-insert f.path p f known
    ∙ skip (Bool-cases (f.path == p))
  where
    skip :
        ((f.path == p) ≡ true) ⊎ ((f.path == p) ≡ false)
        → (if f.path == p then some f else lookup p known) ≡ lookup p known
    skip (inl e) = absurd (n ((eq_iff f.path p).0 e))
    skip (inr e) = rw e refl

distinct_rest :
    (p : Text) (fs : List FileMeta) → All (λ q. q ≢ p) (paths fs) → All (λ g. g.path ≢ p) fs
distinct_rest p [] a = tt
distinct_rest p (f ∷ fs) (n, a) = (n, distinct_rest p fs a)

lookup-by_path :
    (fs : List FileMeta) (known : Existing)
    → Distinct (paths fs)
    → All (λ g. lookup g.path (by_path fs known) ≡ some g) fs
unfolding by_path
lookup-by_path [] known d = tt
lookup-by_path (f ∷ fs) known (n, d) = (
  lookup-by_path_other f.path fs (insert f.path f known) (distinct_rest f.path fs n)
      ∙ lookup-insert f.path f.path f known
      ∙ rw ((eq_iff f.path f.path).1 refl) refl,
  lookup-by_path fs (insert f.path f known) d,
)

pub edited_files-IsHashed :
    (old : List FileMeta) (fs : List EditFile)
    → Distinct (paths old)
    → Each (IsHashed old) fs (edited_files (by_path old []) fs)
unfolding edited_file lookup
edited_files-IsHashed old fs d =
    Each-edited_files (IsHashed old) (by_path old []) fs (λ f. hashed f)
  where
    hashed : (f : EditFile) → IsHashed old f (edited_file (by_path old []) f)
    hashed f = (
      All-map _ _ old (λ o e p. rw (← p) (ap sha_of e)) (lookup-by_path old [] d),
      λ a. rw (lookup-by_path_other f.old_path old [] a) refl,
    )

-- the set after an edit of a set, which keeps its approval record
abbrev pub IsEditedSet : Text → Text → SetMeta → EditSetRequest → RawdbMeta → Type 0
IsEditedSet maker model row req meta =
    (meta.set.maker ≡ maker)
    × (meta.set.model ≡ model)
    × IsLicense req.license meta.set.license
    × IsText req.uploaded_by meta.set.uploaded_by
    × (meta.set.uploaded_at ≡ none)
    × IsText req.notes meta.set.notes
    × (meta.set.special ≡ req.special)
    × (meta.set.approved_at ≡ row.approved_at)
    × (meta.set.approved_by ≡ row.approved_by)
    × (meta.set.approved_initial_at ≡ row.approved_initial_at)
    × (meta.set.approved_initial_by ≡ row.approved_initial_by)

pub edited_set-IsEditedSet :
    (maker model : Text) (row : SetMeta) (req : EditSetRequest) (known : Existing)
    → IsEditedSet maker model row req (edited_set maker model row req known)
unfolding edited_set
edited_set-IsEditedSet maker model row req known = (
  refl,
  refl,
  license_or_default-IsLicense req.license,
  not_blank-IsText req.uploaded_by,
  refl,
  not_blank-IsText req.notes,
  refl,
  refl,
  refl,
  refl,
  refl,
)

-- the set after an edit of an upload, which has no approval record
abbrev pub IsEditedUpload : EditRequest → RawdbMeta → Type 0
IsEditedUpload req meta =
    (meta.set.maker ≡ trim req.maker)
    × (meta.set.model ≡ trim req.model)
    × IsLicense req.license meta.set.license
    × IsText req.uploaded_by meta.set.uploaded_by
    × (meta.set.uploaded_at ≡ none)
    × IsText req.notes meta.set.notes
    × (meta.set.special ≡ req.special)
    × (meta.set.approved_at ≡ none)
    × (meta.set.approved_by ≡ none)
    × (meta.set.approved_initial_at ≡ none)
    × (meta.set.approved_initial_by ≡ none)

pub edited_pending-IsEditedUpload :
    (req : EditRequest) (known : Existing) → IsEditedUpload req (edited_pending req known)
unfolding edited_pending
edited_pending-IsEditedUpload req known = (
  refl,
  refl,
  license_or_default-IsLicense req.license,
  not_blank-IsText req.uploaded_by,
  refl,
  not_blank-IsText req.notes,
  refl,
  refl,
  refl,
  refl,
  refl,
)

-- the request names each of the old files
abbrev pub NamesAll : List EditFile → List FileMeta → Type 0
NamesAll files old = All (λ g. Any (λ f. f.old_path ≡ g.path) files) old

lookup-slot :
    (Q : Text → Type 0) (p : Text) (g : FileMeta) (known : Existing)
    → All (λ slot. Q slot.0) known
    → lookup p known ≡ some g
    → Q p
unfolding lookup
lookup-slot Q p g [] a e = absurd (cc e)
lookup-slot Q p g (slot ∷ known) (q, a) e = elim (Bool-cases (slot.0 == p)) [
  | inl k ↦ rw (← (eq_iff slot.0 p).0 k) q
  | inr k ↦ lookup-slot Q p g known a (rw (lookup, k) at e)
]

pub slots-NamesAll :
    (files : List EditFile) (old : List FileMeta)
    → Distinct (paths old)
    → All (λ slot. Any (λ f. f.old_path ≡ slot.0) files) (by_path old [])
    → NamesAll files old
slots-NamesAll files old d a =
    All-map _ _ old
      (λ g e. lookup-slot (λ p. Any (λ f. f.old_path ≡ p) files) g.path g (by_path old []) a e)
      (lookup-by_path old [] d)

All-by_path :
    (Q : Text → Type 0) (fs : List FileMeta) (known : Existing)
    → All (λ g. Q g.path) fs
    → All (λ slot. Q slot.0) known
    → All (λ slot. Q slot.0) (by_path fs known)
unfolding by_path
All-by_path Q [] known a k = k
All-by_path Q (f ∷ fs) known (q, a) k =
    All-by_path Q fs (insert f.path f known) a (All-insert (λ slot. Q slot.0) f.path f known q k)

dropped-none :
    (prefix : Text) (files : List EditFile) (known : Existing)
    → All (λ slot. Any (λ f. f.old_path ≡ slot.0) files) known
    → dropped prefix files known ≡ []
unfolding dropped
dropped-none prefix files [] a = refl
dropped-none prefix files (slot ∷ known) (n, a) =
    rw
      (
        dropped,
        (any_iff (λ f. f.old_path == slot.0) (λ f. f.old_path ≡ slot.0) files
              (λ f. eq_iff f.old_path slot.0)).1
            n,
      )
      (dropped-none prefix files known a)

pub NamesAll-dropped :
    (prefix : Text) (files : List EditFile) (old : List FileMeta)
    → NamesAll files old
    → dropped prefix files (by_path old []) ≡ []
NamesAll-dropped prefix files old a =
    dropped-none prefix files (by_path old [])
      (All-by_path (λ p. Any (λ f. f.old_path ≡ p) files) old [] a tt)
