-- ===== src/Admin/Edit.antt =====
-- backend/src/routes/admin.rs: the requests of `edit_pending` and `edit_set`, their checks, and the meta that
-- they write. A map with paths as keys is an association list; the program does not depend on its order.
use rawdb.Base.{
  Bool, not, ◌||◌, Option, none, some, List, [], ◌∷◌, Text, ◌==◌, any, is_empty, trim, starts_with,
  contains, contains_dotdot, split, lookup, insert, Result, ok, err, if◌then◌else◌,
}
use rawdb.Error.{AppError, bad_request, invalid_path, duplicate_path, not_allowed}
use rawdb.Meta.{SetMeta, FileMeta, RawdbMeta, default_license}
use rawdb.Upload.{blocked_extension}

pub record EditFile : Type 0 where
  pub old_path : Text
  pub path : Text
  pub tags : List Text
  pub notes : Option Text
  pub license : Option Text

pub record EditRequest : Type 0 where
  pub maker : Text
  pub model : Text
  pub license : Text
  pub notes : Option Text
  pub uploaded_by : Option Text
  pub special : Bool
  pub files : List EditFile

pub record EditSetRequest : Type 0 where
  pub license : Text
  pub notes : Option Text
  pub uploaded_by : Option Text
  pub special : Bool
  pub files : List EditFile

-- the destination `p`, trimmed
unfoldable pub is_bad_path : Text → Bool
unfolding any
is_bad_path p =
    is_empty p
    || starts_with b'/' p
    || contains_dotdot p
    || not (contains b'/' p)
    || any is_empty (split b'/' p)

unfoldable pub check_paths : List Text → List Text → List EditFile → Result AppError (Unit {0})
unfolding is_bad_path blocked_extension
check_paths blocked seen [] = ok tt
check_paths blocked seen (f ∷ fs) =
    let rest = check_paths blocked (trim f.path ∷ seen) fs in
    if is_bad_path (trim f.path)
    then err (bad_request (invalid_path (trim f.path)))
    else if any (λ q. q == trim f.path) seen
    then err (bad_request (duplicate_path (trim f.path)))
    else elim (blocked_extension (trim f.path) blocked) [
      | some e ↦ err (bad_request (not_allowed e (trim f.path)))
      | none ↦ rest
    ]

-- the loop of `clean_tags`, with the tags `seen`
unfoldable pub clean_from : List Text → List Text → List Text
clean_from seen [] = []
clean_from seen (raw ∷ items) =
    let same = clean_from seen items in
    let more = clean_from (trim raw ∷ seen) items in
    if is_empty (trim raw) || any (λ t. t == trim raw) seen then same else trim raw ∷ more

unfoldable pub clean_tags : List Text → List Text
unfolding clean_from
clean_tags items = clean_from [] items

-- `filter(|s| !s.trim().is_empty())`
abbrev pub not_blank : Option Text → Option Text
not_blank none = none
not_blank (some s) = if is_empty (trim s) then none else some s

abbrev pub license_or_default : Text → Text
license_or_default s = if is_empty (trim s) then default_license else s

abbrev pub Existing : Type 0
Existing = List (Text × FileMeta)

-- `collect` into a map by path
unfoldable pub by_path : List FileMeta → Existing → Existing
by_path [] known = known
by_path (f ∷ fs) known = by_path fs (insert f.path f known)

abbrev pub sha_of : Option FileMeta → Option Text
sha_of none = none
sha_of (some f) = f.sha256

-- the entry of the new meta, which carries the hash of the old one
unfoldable pub edited_file : Existing → EditFile → FileMeta
unfolding clean_tags
edited_file known f = record {
  path = trim f.path;
  sha256 = sha_of (lookup f.old_path known);
  license = not_blank f.license;
  notes = not_blank f.notes;
  tags = clean_tags f.tags;
}

unfoldable pub edited_files : Existing → List EditFile → List FileMeta
unfolding edited_file
edited_files known [] = []
edited_files known (f ∷ fs) = edited_file known f ∷ edited_files known fs

unfoldable pub edited_pending : EditRequest → Existing → RawdbMeta
unfolding edited_files
edited_pending req known = record {
  set = record {
    maker = trim req.maker;
    model = trim req.model;
    license = license_or_default req.license;
    uploaded_by = not_blank req.uploaded_by;
    uploaded_at = none;
    notes = not_blank req.notes;
    special = req.special;
    approved_at = none;
    approved_by = none;
    approved_initial_at = none;
    approved_initial_by = none;
  };
  files = edited_files known req.files;
}

-- the approval record is that of the row of the set
unfoldable pub edited_set : Text → Text → SetMeta → EditSetRequest → Existing → RawdbMeta
unfolding edited_files
edited_set maker model row req known = record {
  set = record {
    maker = maker;
    model = model;
    license = license_or_default req.license;
    uploaded_by = not_blank req.uploaded_by;
    uploaded_at = none;
    notes = not_blank req.notes;
    special = req.special;
    approved_at = row.approved_at;
    approved_by = row.approved_by;
    approved_initial_at = row.approved_initial_at;
    approved_initial_by = row.approved_initial_by;
  };
  files = edited_files known req.files;
}
