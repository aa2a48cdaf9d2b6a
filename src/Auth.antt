-- ===== src/Auth.antt =====
-- backend/src/auth.rs: the session cookie, the roles and the guard in front of the admin handlers.
-- Decoding a JWT (`jsonwebtoken`) and reading the users mirror (SQLite) are arguments.
mod Tests
pub mod Roles
pub mod Guard
pub mod ApiKey
use Prim.Native.Nat.{bit_and}
use rawdb.Base.{
  ℕ, Bool, true, false, not, ◌&&◌, Option, none, some, List, [], ◌∷◌, ◌++◌, Text, codes, ◌==◌, any,
  eqb, split, strip_prefix, trim, Result, ok, err, ◌>>=◌, if◌then◌else◌,
}
use rawdb.Error.{AppError, unauthorized, forbidden}

pub record Session : Type 0 where
  pub sub : Text
  pub source : Text
  pub roles : List Text
  pub exp : ℕ

-- `UserRow` of backend/src/cache/db.rs
pub record UserRow : Type 0 where
  pub sub : Text
  pub display_name : Option Text
  pub blocked : Bool
  pub added_at : Option ℕ
  pub added_by : Option Text
  pub roles : List Text
  pub api_key_hash : Option Text

abbrev pub session_cookie : Text
session_cookie = codes "rawdb_session"

abbrev pub bootstrap_sub : Text
bootstrap_sub = codes "bootstrap:admin"

abbrev pub role_admin : Text
role_admin = codes "admin"

abbrev pub role_reviewer : Text
role_reviewer = codes "reviewer"

abbrev pub role_approver : Text
role_approver = codes "approver"

abbrev pub role_editor : Text
role_editor = codes "editor"

abbrev pub role_deleter : Text
role_deleter = codes "deleter"

unfoldable pub has_role : List Text → Text → Bool
has_role roles role = any (λ r. r == role) roles

-- REVIEWER_BIT, ADMIN_BIT, APPROVER_BIT, EDITOR_BIT and DELETER_BIT are 1, 2, 4, 8 and 16.
abbrev pub role_bit_table : List (ℕ × Text)
role_bit_table =
    (2, role_admin)
    ∷ (1, role_reviewer)
    ∷ (4, role_approver)
    ∷ (8, role_editor)
    ∷ (16, role_deleter)
    ∷ []

unfoldable pub is_role_allowed : ℕ → List Text → Bool
unfolding has_role any
is_role_allowed role_bits roles =
    any (λ e. not (eqb (bit_and role_bits e.0) 0) && has_role roles e.1) role_bit_table

cookie_in : Text → List Text → Option Text
cookie_in prefix [] = none
cookie_in prefix (kv ∷ kvs) = elim (strip_prefix prefix (trim kv)) [
  | some v ↦ some v
  | none ↦ cookie_in prefix kvs
]

-- over the text of the `Cookie` header, if there is one
unfoldable pub extract_cookie : Option Text → Text → Option Text
unfolding cookie_in
extract_cookie none name = none
extract_cookie (some header) name = cookie_in (name ++ codes "=") (split b';' header)

unfoldable pub session_extractor : (Text → Option Session) → Option Text → Result AppError Session
session_extractor decode_session header = elim (extract_cookie header session_cookie) [
  | none ↦ err unauthorized
  | some token ↦ elim (decode_session token) [ none ↦ err unauthorized | some sess ↦ ok sess ]
]

-- the session with the live roles of its user, unless it is the bootstrap admin's
unfoldable pub live_session :
    (Text → Result AppError (Option UserRow)) → Session → Result AppError Session
live_session get_user sess =
    if sess.sub == bootstrap_sub then ok sess else elim (get_user sess.sub) [
      | err e ↦ err e
      | ok none ↦ err forbidden
      | ok (some u) ↦ if u.blocked then err forbidden else ok (record sess { roles = u.roles })
    ]

unfoldable pub auth_guard :
    (Text → Option Session)
    → (Text → Result AppError (Option UserRow))
    → ℕ
    → Option Text
    → Result AppError Session
auth_guard decode_session get_user role_bits header = do
  sess ← session_extractor decode_session header
  live ← live_session get_user sess
  if is_role_allowed role_bits live.roles then ok live else err forbidden
