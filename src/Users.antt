-- ===== src/Users.antt =====
-- backend/src/users.rs: the users file `_system/users.toml` and its conditional update. Reading UTF-8
-- and reading and printing TOML are arguments, and so is what other instances do to the store before
-- each request (`others`).
mod Tests
pub mod Attempt
pub mod Commit
pub mod Admin
pub mod Edit
pub mod Key
use rawdb.Base.{
  ℕ, zero, suc, Bool, true, false, ◌&&◌, Option, none, some, List, [], ◌∷◌, ◌++◌, map, Text, codes,
  ◌==◌, eqb, Result, ok, err, if◌then◌else◌,
}
use rawdb.Error.{AppError}
use rawdb.S3.{
  S3, S3Error, Bytes, not_found as absent_key, other as s3_failure, precondition_failed, quoted,
}
use rawdb.Auth.{UserRow}
use rawdb.Cache.{Cache, replace_users}
use rawdb.State.{Pod}
use rawdb.SyncTick.{Domain, users, bump}

abbrev pub users_key : Text
users_key = codes "_system/users.toml"

abbrev pub max_cas_retries : ℕ
max_cas_retries = 5

pub record User : Type 0 where
  pub sub : Text
  pub display_name : Option Text
  pub blocked : Bool
  pub added_at : Option ℕ
  pub added_by : Option Text
  pub roles : List Text
  pub api_key_hash : Option Text

-- `UsersFile`, whose one field is the list
abbrev pub UsersFile : Type 0
UsersFile = List User

pub data UsersError : Type 0 where
  concurrent_write : UsersError
  not_found : Text → UsersError
  other : UsersError

unfoldable pub to_db_row : User → UserRow
to_db_row u = record {
  sub = u.sub;
  display_name = u.display_name;
  blocked = u.blocked;
  added_at = u.added_at;
  added_by = u.added_by;
  roles = u.roles;
  api_key_hash = u.api_key_hash;
}

-- `==` on the field types
unfoldable pub same_text : Option Text → Option Text → Bool
same_text none none = true
same_text (some a) (some b) = a == b
same_text none (some b) = false
same_text (some a) none = false

unfoldable pub same_time : Option ℕ → Option ℕ → Bool
same_time none none = true
same_time (some a) (some b) = eqb a b
same_time none (some b) = false
same_time (some a) none = false

unfoldable pub same_texts : List Text → List Text → Bool
same_texts [] [] = true
same_texts (a ∷ xs) (b ∷ ys) = a == b && same_texts xs ys
same_texts [] (b ∷ ys) = false
same_texts (a ∷ xs) [] = false

-- `PartialEq for User`
unfoldable pub same_user : User → User → Bool
unfolding same_text same_time same_texts
same_user a b =
    a.sub == b.sub
    && same_text a.display_name b.display_name
    && (if a.blocked then b.blocked else (if b.blocked then false else true))
    && same_time a.added_at b.added_at
    && same_text a.added_by b.added_by
    && same_texts a.roles b.roles
    && same_text a.api_key_hash b.api_key_hash

unfoldable pub same_users : UsersFile → UsersFile → Bool
unfolding same_user
same_users [] [] = true
same_users (a ∷ xs) (b ∷ ys) = same_user a b && same_users xs ys
same_users [] (b ∷ ys) = false
same_users (a ∷ xs) [] = false

-- the two requests of a round, numbered by the retries that are left
pub data Request : Type 0 where
  get put : ℕ → Request

-- How a round ends: `return`, or `continue`.
pub data Round (St : Type 0) : Type 0 where
  finished : Result UsersError UsersFile → Pod St → Round St
  again : Pod St → Round St

-- `If-Match` and `If-None-Match` of the PUT
unfoldable pub if_match : Bool → Option Text → Option Text
if_match false etag = none
if_match true none = none
if_match true (some etag) = some (quoted etag)

unfoldable pub if_none_match : Bool → Option Text → Option Text
if_none_match false etag = none
if_none_match true none = some (codes "*")
if_none_match true (some etag) = none

-- what the libraries and the configuration give
pub record Codec : Type 0 where
  pub from_utf8 : Bytes → Option Text
  pub from_str : Text → Option UsersFile
  pub to_bytes : UsersFile → Bytes

unfoldable pub parse_users : Codec → Bytes → Option UsersFile
parse_users codec bytes = elim (codec.from_utf8 bytes) [ none ↦ none | some s ↦ codec.from_str s ]

module _ {St : Type 0} (s3 : S3 St) (codec : Codec) (conditional : Bool) (tick : Domain → Bytes)
    (others : Request → St → St) where
  unfoldable pub read_with_etag : St → Result UsersError (UsersFile × Option Text)
  unfolding parse_users
  read_with_etag s = elim (s3.get_bytes users_key s) [
    | ok (bytes, etag) ↦ elim (parse_users codec bytes) [
      | none ↦ err other
      | some file ↦ ok (file, etag)
    ]
    | err (absent_key k) ↦ ok ([], none)
    | err precondition_failed ↦ err other
    | err s3_failure ↦ err other
  ]

  -- after `replace_users`
  abbrev pub mirrored : UsersFile → Pod St → Result AppError (Unit {0}) × Cache → Round St
  mirrored next pod (ok u, c) =
      finished (ok next) (bump s3 tick (users ∷ []) (record pod { cache = c }))
  mirrored next pod (err e, c) = finished (err other) (record pod { cache = c })

  -- the match on the answer to the PUT
  unfoldable pub settle_write : UsersFile → Pod St → Result S3Error Text × St → Round St
  settle_write next pod (ok etag, s) =
      mirrored next (record pod { store = s })
        (replace_users (some etag) (map to_db_row next) pod.cache)
  settle_write next pod (err precondition_failed, s) = again (record pod { store = s })
  settle_write next pod (err (absent_key k), s) = finished (err other) (record pod { store = s })
  settle_write next pod (err s3_failure, s) = finished (err other) (record pod { store = s })

  unfoldable pub write_users : ℕ → UsersFile → Option Text → Pod St → Round St
  unfolding if_match if_none_match
  write_users n next etag pod = settle_write next pod (
      s3.put_bytes users_key (codec.to_bytes next) (if_match conditional etag)
        (if_none_match conditional etag) (others (put n) pod.store))

  -- the body of the loop, with `n` retries left after this one
  unfoldable pub cas_round : ℕ → (UsersFile → Result UsersError UsersFile) → Pod St → Round St
  unfolding same_users
  cas_round n mutate pod =
      let pod = record pod { store = others (get n) pod.store } in
      elim (read_with_etag pod.store) [
        | err e ↦ finished (err e) pod
        | ok (current, etag) ↦ elim (mutate current) [
          | err e ↦ finished (err e) pod
          | ok next ↦
              if same_users next current
              then finished (ok next) pod
              else write_users n next etag pod
        ]
      ]

  unfoldable pub cas_loop :
      ℕ → (UsersFile → Result UsersError UsersFile) → Pod St → Result UsersError UsersFile × Pod St
  unfolding cas_round
  cas_loop zero mutate pod = (err concurrent_write, pod)
  cas_loop (suc n) mutate pod = elim (cas_round n mutate pod) [
    | finished r pod' ↦ (r, pod')
    | again pod' ↦ cas_loop n mutate pod'
  ]

  unfoldable pub cas_update :
      (UsersFile → Result UsersError UsersFile) → Pod St → Result UsersError UsersFile × Pod St
  cas_update mutate pod = cas_loop max_cas_retries mutate pod
