-- ===== src/Meta/Quote.antt =====
-- `to_toml` of backend/src/meta.rs, with its helpers `q` (here `quote`) and `arr`.
use rawdb.Base.{
  ℕ, Option, none, some, List, [], ◌∷◌, ◌++◌, Text, codes, is_empty, eqb, if◌then◌else◌,
}
use rawdb.Meta.{SetMeta, FileMeta, RawdbMeta, DateTime}

-- `replace`, of one character
replace : ℕ → Text → Text → Text
replace x y [] = []
replace x y (c ∷ s) = let rest = replace x y s in if eqb c x then y ++ rest else c ∷ rest

unfoldable pub escape_all : Text → Text
unfolding replace
escape_all s =
    replace 9 (codes "\\t")
      (replace 10 (codes "\\n") (replace 34 (codes "\\\"") (replace 92 (codes "\\\\") s)))

unfoldable pub quote : Text → Text
unfolding escape_all
quote s = 34 ∷ escape_all s ++ 34 ∷ []

quotes : List Text → Text
quotes [] = []
quotes (s ∷ []) = quote s
quotes (s ∷ t ∷ r) = quote s ++ codes ", " ++ quotes (t ∷ r)

unfoldable pub arr : List Text → Text
unfolding quotes
arr items = codes "[" ++ quotes items ++ codes "]"

-- `{key} = {value}\n`
line : Text → Text → Text
line key value = key ++ codes " = " ++ value ++ 10 ∷ []

-- a line for a text that is there and not empty
text_line : Text → Option Text → Text
text_line key none = []
text_line key (some s) = if is_empty s then [] else line key (quote s)

module _ (to_rfc3339 : DateTime → Text) where
  time_line : Text → Option DateTime → Text
  time_line key none = []
  time_line key (some at) = line key (quote (to_rfc3339 at))

  set_table : SetMeta → Text
  set_table s =
      codes "[set]"
      ++ 10 ∷ line (codes "maker") (quote s.maker)
      ++ line (codes "model") (quote s.model)
      ++ line (codes "license") (quote s.license)
      ++ text_line (codes "uploaded_by") s.uploaded_by
      ++ time_line (codes "uploaded_at") s.uploaded_at
      ++ time_line (codes "approved_at") s.approved_at
      ++ text_line (codes "approved_by") s.approved_by
      ++ time_line (codes "approved_initial_at") s.approved_initial_at
      ++ text_line (codes "approved_initial_by") s.approved_initial_by
      ++ text_line (codes "notes") s.notes
      ++ (if s.special then codes "special = true" ++ 10 ∷ [] else [])

tags_line : List Text → Text
tags_line [] = []
tags_line (t ∷ r) = line (codes "tags") (arr (t ∷ r))

files_tables : List FileMeta → Text
files_tables [] = []
files_tables (f ∷ files) =
    (10 ∷ codes "[[files]]" ++ 10 ∷ [])
    ++ line (codes "path") (quote f.path)
    ++ text_line (codes "sha256") f.sha256
    ++ text_line (codes "license") f.license
    ++ tags_line f.tags
    ++ text_line (codes "notes") f.notes
    ++ files_tables files

unfoldable pub to_toml : (DateTime → Text) → RawdbMeta → Text
unfolding set_table files_tables line text_line time_line tags_line quote arr
to_toml to_rfc3339 meta = set_table to_rfc3339 meta.set ++ files_tables meta.files
