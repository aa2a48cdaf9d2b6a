-- ===== src/Meta/Strings.antt =====
-- The texts that `quote` prints, read by the grammar of basic strings of TOML 1.0.
use rawdb.Base.{
  ℕ, ◌≡◌, refl, Bool, true, false, Option, none, some, [], ◌∷◌, ◌++◌, append_assoc, Text, codes,
  eqb, ltb, any, if◌then◌else◌, arith, ◌&&◌, ◌||◌, not,
}
use rawdb.Meta.Quote.{quote, escape_all}

-- A character that a basic string may not hold unescaped: U+0000 to U+001F but the tab, and U+007F.
abbrev pub is_control : ℕ → Bool
is_control c = (ltb c 32 && not (eqb c 9)) || eqb c 127

-- the character that a short escape stands for; the escapes with code points are not needed here
abbrev unescape : ℕ → Option ℕ
unescape c =
    if eqb c 34
    then some 34
    else if eqb c 92
    then some 92
    else if eqb c b'b'
    then some 8
    else if eqb c b't'
    then some 9
    else if eqb c b'n'
    then some 10
    else if eqb c b'f'
    then some 12
    else if eqb c b'r'
    then some 13
    else none

abbrev prepend : ℕ → Option (Text × Text) → Option (Text × Text)
prepend c none = none
prepend c (some (s, rest)) = some (c ∷ s, rest)

-- The content of a basic string behind its opening quotation mark, and what follows the string.
-- The flag says that a backslash has been read.
read_basic : Bool → Text → Option (Text × Text)
read_basic escaped [] = none
read_basic true (c ∷ s) = elim (unescape c) [
  | none ↦ none
  | some x ↦ prepend x (read_basic false s)
]
read_basic false (c ∷ s) = elim (eqb c 34) [
  | true ↦ some ([], s)
  | false ↦ elim (eqb c 92) [
    | true ↦ read_basic true s
    | false ↦ elim (is_control c) [ true ↦ none | false ↦ prepend c (read_basic false s) ]
  ]
]

unfoldable pub unquote : Text → Option (Text × Text)
unfolding read_basic
unquote [] = none
unquote (c ∷ s) = if eqb c 34 then read_basic false s else none

abbrev escape : ℕ → Text
escape c =
    if eqb c 92
    then codes "\\\\"
    else if eqb c 34
    then codes "\\\""
    else if eqb c 10
    then codes "\\n"
    else if eqb c 9
    then codes "\\t"
    else c ∷ []

escape_all-cons : (c : ℕ) (s : Text) → escape_all (c ∷ s) ≡ escape c ++ escape_all s
unfolding escape_all
escape_all-cons c s = ground arith

-- a character that `quote` copies and that no basic string may hold
abbrev pub is_raw_control : ℕ → Bool
is_raw_control c = is_control c && not (eqb c 10)

abbrev pub outcome : Text → Text → Option (Text × Text)
outcome s rest = if any is_raw_control s then none else some (s, rest)

read-escape :
    (c : ℕ) (s rest t : Text)
    → read_basic false t ≡ outcome s rest
    → read_basic false (escape c ++ t) ≡ outcome (c ∷ s) rest
unfolding read_basic any
read-escape c s rest t h = ground arith

read-escape_all : (s rest : Text) → read_basic false (escape_all s ++ 34 ∷ rest) ≡ outcome s rest
read-escape_all [] rest = unfold escape_all read_basic any in refl
read-escape_all (c ∷ s) rest = rw (escape_all-cons c s) (
    rw (append_assoc (escape c) (escape_all s) (34 ∷ rest))
      (read-escape c s rest (escape_all s ++ 34 ∷ rest) (read-escape_all s rest)))

-- What `q` prints for a text is read back by the grammar of TOML as that text, whatever follows it,
-- if the text holds no control character besides tab and line feed; otherwise it is no TOML string.
pub unquote-quote : (s rest : Text) → unquote (quote s ++ rest) ≡ outcome s rest
unfolding unquote quote
unquote-quote s rest = rw (append_assoc (escape_all s) (34 ∷ []) rest) (read-escape_all s rest)
