-- ===== src/Meta/Tests.antt =====
-- backend/src/meta.rs: runs of the validation and of the printing.
use rawdb.Base.{
  ◌≡◌, refl, ◌↔◌, Bool, false, Option, none, some, List, [], ◌∷◌, ◌++◌, Text, codes, Result, ok,
  err,
}
use rawdb.Meta.{
  FileMeta, RawdbMeta, default_license, validate, validate_path, empty_maker, duplicate_path,
  no_category,
}
use rawdb.Meta.Laws.{IsFilePath, IsValidMeta, validate_path_iff, validate_iff}
use rawdb.Meta.Quote.{quote}
use rawdb.Meta.Strings.{unquote, outcome, unquote-quote}

abbrev raw_file : Text → FileMeta
raw_file path = record { path = path; sha256 = none; license = none; notes = none; tags = [] }

abbrev canon : Text → List FileMeta → RawdbMeta
canon maker files = record {
  set = record {
    maker = maker;
    model = codes "EOS R5";
    license = default_license;
    uploaded_by = none;
    uploaded_at = none;
    notes = none;
    special = false;
    approved_at = none;
    approved_by = none;
    approved_initial_at = none;
    approved_initial_by = none;
  };
  files = files;
}

abbrev one_file : RawdbMeta
one_file = canon (codes "Canon") (raw_file (codes "raw/a.cr3") ∷ [])

validate_tests :
    (validate one_file ≡ ok tt)
    × (validate (canon (codes " ") []) ≡ err empty_maker)
    × (validate
          (canon (codes "Canon") (raw_file (codes "raw/a.cr3") ∷ raw_file (codes "raw/a.cr3") ∷ []))
        ≡ err (duplicate_path (codes "raw/a.cr3")))
    × (validate_path (codes "a.cr3") ≡ err no_category)
unfolding validate validate_path rawdb.Base.trim rawdb.Base.contains rawdb.Base.any rawdb.Base.split
    rawdb.Base.◌==◌
validate_tests = (refl, refl, refl, refl)

validate_path_iff_example :
    (validate_path (codes "raw/a.cr3") ≡ ok tt) ↔ IsFilePath (codes "raw/a.cr3")
validate_path_iff_example = validate_path_iff (codes "raw/a.cr3")

validate_iff_example : (validate one_file ≡ ok tt) ↔ IsValidMeta one_file
validate_iff_example = validate_iff one_file

unquote-quote_example :
    unquote (quote (codes "a\"b") ++ codes " # x") ≡ outcome (codes "a\"b") (codes " # x")
unquote-quote_example = unquote-quote (codes "a\"b") (codes " # x")
