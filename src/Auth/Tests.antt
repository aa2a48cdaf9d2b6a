-- ===== src/Auth/Tests.antt =====
-- backend/src/auth.rs and backend/src/apikey.rs: a request that is let through.
use rawdb.Base.{
  ◌≡◌, refl, ◌↔◌, Bool, true, false, Option, none, some, List, [], ◌∷◌, ◌++◌, Text, codes, ◌==◌,
  is_empty, trim, Any, Result, ok, if◌then◌else◌,
}
use rawdb.Error.{AppError}
use rawdb.Auth.{Session, UserRow, role_approver, is_role_allowed, auth_guard}
use rawdb.Auth.Roles.{approver_or_admin, role_bits, passing_roles, Holds, is_role_allowed_iff}
use rawdb.Auth.Guard.{IsAdmitted, auth_guard-IsAdmitted}
use rawdb.Cache.{Cache}
use rawdb.Base.{HasText}
use rawdb.Auth.ApiKey.{role_apiservice, lookup, lookup_iff, IsHolder}

abbrev ann : UserRow
ann = record {
  sub = codes "github:ann";
  display_name = none;
  blocked = false;
  added_at = none;
  added_by = none;
  roles = role_approver ∷ role_apiservice ∷ [];
  api_key_hash = some (codes "secret");
}

abbrev token : Session
token = record { sub = codes "github:ann"; source = codes "github"; roles = []; exp = 9 }

abbrev decode : Text → Option Session
decode t = if t == codes "jwt" then some token else none

abbrev users_of : Text → Result AppError (Option UserRow)
users_of sub = ok (if sub == codes "github:ann" then some ann else none)

abbrev header : Option Text
header = some (codes "a=b; rawdb_session=jwt")

is_role_allowed_iff_example :
    (is_role_allowed (role_bits approver_or_admin) (role_approver ∷ []) ≡ true)
    ↔ Any (λ role. Holds (role_approver ∷ []) role) (passing_roles approver_or_admin)
is_role_allowed_iff_example = is_role_allowed_iff approver_or_admin (role_approver ∷ [])

abbrev live : Session
live = record token { roles = ann.roles }

auth_guard_tests : auth_guard decode users_of (role_bits approver_or_admin) header ≡ ok live
unfolding auth_guard rawdb.Auth.session_extractor rawdb.Auth.extract_cookie rawdb.Base.split
    rawdb.Base.strip_prefix trim ◌==◌ rawdb.Auth.live_session is_role_allowed
auth_guard_tests = refl

auth_guard-IsAdmitted_example : IsAdmitted decode users_of approver_or_admin header live
auth_guard-IsAdmitted_example =
    auth_guard-IsAdmitted decode users_of approver_or_admin header live auth_guard_tests

abbrev bob : UserRow
bob = record ann { sub = codes "github:bob"; api_key_hash = some (codes "other") }

abbrev mirror : Cache
mirror = record {
  sets = [];
  pending = [];
  users = bob ∷ ann ∷ [];
  users_etag = none;
  sets_gen = 0;
  pending_gen = 0;
}

lookup_iff_example : (lookup (λ t. t) mirror (some (codes " secret ")) ≡ ok (some ann)) ↔ (
    HasText (codes " secret ")
    × IsHolder (trim (codes " secret ")) mirror.users ann
    × (ann.blocked ≡ false)
    × Holds ann.roles role_apiservice)
lookup_iff_example = lookup_iff (λ t. t) mirror (codes " secret ") ann

lookup_tests : lookup (λ t. t) mirror (some (codes " secret ")) ≡ ok (some ann)
unfolding lookup trim ◌==◌ rawdb.Base.find rawdb.Auth.has_role rawdb.Base.any
lookup_tests = refl
