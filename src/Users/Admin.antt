-- ===== src/Users/Admin.antt =====
-- backend/src/routes/admin.rs and backend/src/routes/me.rs: the handlers that change the users file.
-- The role check of `AuthGuard` is in Auth; the current time, the generated key and the hash are
-- arguments.
use rawdb.Base.{
  ℕ, Bool, true, false, not, Option, none, some, List, [], ◌∷◌, ◌++◌, map, Text, codes, ◌==◌, any,
  find, retain, length, eqb, is_empty, trim, Result, ok, err, if◌then◌else◌,
}
use rawdb.Error.{
  AppError, bad_request, conflict, forbidden, not_found as no_such, other as internal, sub_required,
  unknown_role, concurrent_edit, bootstrap_no_key,
}
use rawdb.S3.{S3, Bytes}
use rawdb.Auth.{bootstrap_sub, has_role}
use rawdb.Auth.ApiKey.{role_apiservice}
use rawdb.Cache.{Cache, get_user}
use rawdb.State.{Pod}
use rawdb.SyncTick.{Domain}
use rawdb.Users.{
  User, UsersFile, UsersError, concurrent_write, not_found, other, Codec, Request, cas_update,
  read_with_etag,
}

pub record ApiKeyStatus : Type 0 where
  pub has_key : Bool
  pub eligible : Bool

abbrev pub has_hash : Option Text → Bool
has_hash none = false
has_hash (some h) = true

-- of the session's `sub`
unfoldable pub get_api_key : Text → Cache → ApiKeyStatus
unfolding get_user
get_api_key sub c =
    let nobody : ApiKeyStatus = record { has_key = false; eligible = false } in
    let known : ApiKeyStatus = elim (get_user sub c) [
      | none ↦ nobody
      | some u ↦ record {
        has_key = has_hash u.api_key_hash;
        eligible = any (λ r. r == role_apiservice) u.roles;
      }
    ] in
    if sub == bootstrap_sub then nobody else known

pub record UserView : Type 0 where
  pub sub : Text
  pub display_name : Option Text
  pub blocked : Bool
  pub roles : List Text
  pub added_at : Option ℕ
  pub added_by : Option Text

unfoldable pub user_view : User → UserView
user_view u = record {
  sub = u.sub;
  display_name = u.display_name;
  blocked = u.blocked;
  roles = u.roles;
  added_at = u.added_at;
  added_by = u.added_by;
}

pub record AddUserRequest : Type 0 where
  pub sub : Text
  pub display_name : Option Text
  pub roles : List Text

pub record PatchUserRequest : Type 0 where
  pub display_name : Option Text
  pub roles : Option (List Text)
  pub blocked : Option Bool

abbrev pub known_roles : List Text
known_roles =
    codes "admin"
    ∷ codes "reviewer"
    ∷ codes "approver"
    ∷ codes "editor"
    ∷ codes "deleter"
    ∷ codes "apiservice"
    ∷ []

unfoldable pub validate_roles : List Text → Result AppError (Unit {0})
validate_roles [] = ok tt
validate_roles (r ∷ rs) =
    let rest = validate_roles rs in
    if any (λ k. k == r) known_roles then rest else err (bad_request (unknown_role r))

unfoldable pub map_users_error : UsersError → AppError
map_users_error (not_found sub) = no_such
map_users_error concurrent_write = conflict concurrent_edit
map_users_error other = internal

-- `iter().find(|u| u.sub == sub)`
abbrev pub find_user : Text → UsersFile → Option User
find_user sub file = find (λ u. u.sub == sub) file

-- a change through `iter_mut().find(|u| u.sub == sub)`
unfoldable pub change_user : Text → (User → User) → UsersFile → UsersFile
change_user sub f [] = []
change_user sub f (u ∷ us) = if u.sub == sub then f u ∷ us else u ∷ change_user sub f us

unfoldable pub change_or_missing : Text → (User → User) → UsersFile → Result UsersError UsersFile
unfolding change_user
change_or_missing sub f file = elim (find_user sub file) [
  | none ↦ err (not_found sub)
  | some u ↦ ok (change_user sub f file)
]

-- The closures that the handlers give to `cas_update`.
unfoldable pub add_to : AddUserRequest → Text → ℕ → UsersFile → Result UsersError UsersFile
add_to req actor_sub now file =
    if any (λ u. u.sub == req.sub) file
    then err other
    else ok (
        file
        ++ record {
          sub = req.sub;
          display_name = req.display_name;
          blocked = false;
          added_at = some now;
          added_by = some actor_sub;
          roles = req.roles;
          api_key_hash = none;
        }
          ∷ [])

unfoldable pub patched : PatchUserRequest → User → User
patched req u = record u {
  display_name = elim req.display_name [ none ↦ u.display_name | some d ↦ some d ];
  roles = elim req.roles [ none ↦ u.roles | some r ↦ r ];
  blocked = elim req.blocked [ none ↦ u.blocked | some b ↦ b ];
}

unfoldable pub patch_in : Text → PatchUserRequest → UsersFile → Result UsersError UsersFile
unfolding change_or_missing patched
patch_in sub req file = change_or_missing sub (patched req) file

unfoldable pub remove_from : Text → UsersFile → Result UsersError UsersFile
remove_from sub file =
    let rest = retain (λ u. not (u.sub == sub)) file in
    if eqb (length rest) (length file) then err (not_found sub) else ok rest

unfoldable pub set_key : Text → Text → UsersFile → Result UsersError UsersFile
unfolding change_or_missing
set_key sub key_hash file =
    change_or_missing sub (λ u. record u { api_key_hash = some key_hash }) file

unfoldable pub clear_key : Text → UsersFile → Result UsersError UsersFile
unfolding change_user
clear_key sub file = ok (change_user sub (λ u. record u { api_key_hash = none }) file)

module _ {St : Type 0} where
  -- the user of the file, as the answer of a handler, or the error if it has gone
  abbrev pub view_answer :
      AppError → Text → Result UsersError UsersFile × Pod St → Result AppError UserView × Pod St
  view_answer gone sub (err e, pod) = (err (map_users_error e), pod)
  view_answer gone sub (ok file, pod) =
      (elim (find_user sub file) [ none ↦ err gone | some u ↦ ok (user_view u) ], pod)

  abbrev pub answer {κ} :
      {A : Type κ} → A → Result UsersError UsersFile × Pod St → Result AppError A × Pod St
  answer a (err e, pod) = (err (map_users_error e), pod)
  answer a (ok file, pod) = (ok a, pod)

module _ {St : Type 0} (s3 : S3 St) (codec : Codec) (conditional : Bool) (tick : Domain → Bytes)
    (others : Request → St → St) where
  abbrev pub update :
      (UsersFile → Result UsersError UsersFile) → Pod St → Result UsersError UsersFile × Pod St
  update mutate pod = cas_update s3 codec conditional tick others mutate pod

  unfoldable pub list_users : Pod St → Result AppError (List UserView)
  unfolding user_view
  list_users pod = elim (read_with_etag s3 codec conditional tick others pod.store) [
    | err e ↦ err internal
    | ok (file, etag) ↦ ok (map user_view file)
  ]

  unfoldable pub add_user : Text → ℕ → AddUserRequest → Pod St → Result AppError UserView × Pod St
  unfolding add_to
  add_user actor_sub now req pod =
      if is_empty (trim req.sub)
      then (err (bad_request sub_required), pod)
      else elim (validate_roles req.roles) [
        | err e ↦ (err e, pod)
        | ok u ↦ view_answer internal req.sub (update (add_to req actor_sub now) pod)
      ]

  -- `if let Some(roles) = &req.roles`
  abbrev pub check_roles : Option (List Text) → Result AppError (Unit {0})
  check_roles none = ok tt
  check_roles (some roles) = validate_roles roles

  unfoldable pub patch_user : Text → PatchUserRequest → Pod St → Result AppError UserView × Pod St
  unfolding patch_in
  patch_user sub req pod = elim (check_roles req.roles) [
    | err e ↦ (err e, pod)
    | ok u ↦ view_answer no_such sub (update (patch_in sub req) pod)
  ]

  unfoldable pub delete_user : Text → Pod St → Result AppError (Unit {0}) × Pod St
  unfolding remove_from
  delete_user sub pod = answer tt (update (remove_from sub) pod)

  -- over the key that `generate` gives and its hash
  unfoldable pub create_api_key : Text → Text → Text → Pod St → Result AppError Text × Pod St
  unfolding set_key
  create_api_key sub key key_hash pod =
      if sub == bootstrap_sub
      then (err (bad_request bootstrap_no_key), pod)
      else elim (get_user sub pod.cache) [
        | none ↦ (err forbidden, pod)
        | some user ↦
            if has_role user.roles role_apiservice
            then answer key (update (set_key sub key_hash) pod)
            else (err forbidden, pod)
      ]

  unfoldable pub delete_api_key : Text → Pod St → Result AppError (Unit {0}) × Pod St
  unfolding clear_key
  delete_api_key sub pod =
      if sub == bootstrap_sub
      then (err (bad_request bootstrap_no_key), pod)
      else answer tt (update (clear_key sub) pod)
