-- ===== src/Meta.antt =====
-- backend/src/meta.rs: the schema of `rawdb-meta.toml`, its validation and its printing.
-- A `chrono` timestamp is an opaque number here; printing one and reading TOML belong to the
-- libraries `chrono` and `toml`, and are arguments of the definitions that call them.
mod Tests
pub mod Laws
pub mod Quote
pub mod Strings
pub mod Plain
use rawdb.Base.{
  not, ℕ, Bool, true, false, Option, none, some, List, [], ◌∷◌, ◌++◌, map, Text, codes, ◌==◌, ◌||◌,
  any, is_empty, trim, contains, starts_with, split, rsplit_next, rsplit_once, split_next,
  to_ascii_lowercase, Result, ok, err, ◌>>=◌, ◌>>◌, map_err, if◌then◌else◌,
}

abbrev pub DateTime : Type 0
DateTime = ℕ

pub record SetMeta : Type 0 where
  pub maker : Text
  pub model : Text
  pub license : Text
  pub uploaded_by : Option Text
  pub uploaded_at : Option DateTime
  pub notes : Option Text
  pub special : Bool
  pub approved_at : Option DateTime
  pub approved_by : Option Text
  pub approved_initial_at : Option DateTime
  pub approved_initial_by : Option Text

pub record FileMeta : Type 0 where
  pub path : Text
  pub sha256 : Option Text
  pub license : Option Text
  pub notes : Option Text
  pub tags : List Text

pub record RawdbMeta : Type 0 where
  pub set : SetMeta
  pub files : List FileMeta

abbrev pub default_license : Text
default_license = codes "CC0 1.0"

-- The reason of `BadPath`.
pub data PathFault : Type 0 where
  empty not_relative no_category invalid_segment : PathFault

pub data MetaError : Type 0 where
  parse_error empty_maker empty_model : MetaError
  bad_path : Text → PathFault → MetaError
  duplicate_path : Text → MetaError

-- `FileMeta::category`
unfoldable pub category : FileMeta → Text
category f = split_next b'/' f.path

-- `FileMeta::name`
unfoldable pub name : FileMeta → Text
name f = rsplit_next b'/' f.path

-- `FileMeta::extension`
unfoldable pub extension : FileMeta → Option Text
unfolding name
extension f = elim (rsplit_once b'.' (name f)) [
  | none ↦ none
  | some (stem, ext) ↦ if is_empty ext then none else some (to_ascii_lowercase ext)
]

unfoldable pub bad_segment : Text → Bool
bad_segment seg = seg == codes "." || seg == codes ".." || is_empty seg

unfoldable pub validate_path : Text → Result PathFault (Unit {0})
unfolding bad_segment
validate_path path =
    if is_empty path
    then err empty
    else if starts_with b'/' path
    then err not_relative
    else if not (contains b'/' path)
    then err no_category
    else if any bad_segment (split b'/' path)
    then err invalid_segment
    else ok tt

-- the loop of `validate`, with the paths `seen`
unfoldable pub validate_files : List Text → List FileMeta → Result MetaError (Unit {0})
validate_files seen [] = ok tt
validate_files seen (f ∷ files) =
    let rest = validate_files (f.path ∷ seen) files in
    do
      map_err (bad_path f.path) (validate_path f.path)
      if any (λ p. p == f.path) seen then err (duplicate_path f.path) else rest

unfoldable pub validate : RawdbMeta → Result MetaError (Unit {0})
unfolding validate_files
validate meta =
    if is_empty (trim meta.set.maker)
    then err empty_maker
    else if is_empty (trim meta.set.model)
    then err empty_model
    else validate_files [] meta.files

-- `parse`, over the TOML reader `from_str`
unfoldable pub parse : (Text → Option RawdbMeta) → Text → Result MetaError RawdbMeta
unfolding validate
parse from_str input = elim (from_str input) [
  | none ↦ err parse_error
  | some meta ↦ do validate meta; ok meta
]
