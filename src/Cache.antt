-- ===== src/Cache.antt =====
-- backend/src/cache/db.rs: the tables of the local SQLite cache and the statements that change them.
-- A table is the list of its rows; a transaction either runs whole or, where a primary key would be
-- violated, changes nothing. The full-text index, `last_indexed_at` and failures of SQLite itself
-- (disk, connection pool) are left out.
use rawdb.Base.{
  ℕ, ◌+◌, ◌%◌, ◌^◌, Bool, false, not, ◌&&◌, ◌||◌, Option, none, some, List, [], ◌∷◌, ◌++◌, Text,
  ◌==◌, any, retain, find, Result, ok, err, if◌then◌else◌,
}
use rawdb.Error.{AppError, other}
use rawdb.Meta.{SetMeta, FileMeta, RawdbMeta}
use rawdb.Auth.{UserRow}

pub record FileSizeInfo : Type 0 where
  pub size : ℕ
  pub etag : Option Text

-- a row of `sets` with its rows of `files` and `tags`
pub record SetEntry : Type 0 where
  pub row : SetMeta
  pub meta_etag : Option Text
  pub files : List (FileMeta × FileSizeInfo)

-- a row of `pending_sets` with its rows of `pending_files`
pub record PendingEntry : Type 0 where
  pub upload_id : Text
  pub row : SetMeta
  pub meta_etag : Option Text
  pub files : List (FileMeta × FileSizeInfo)

pub record Cache : Type 0 where
  pub sets : List SetEntry
  pub pending : List PendingEntry
  pub users : List UserRow
  pub users_etag : Option Text
  -- `Generations`
  pub sets_gen : ℕ
  pub pending_gen : ℕ

-- `fetch_add` on an `AtomicU64`
abbrev next_gen : ℕ → ℕ
next_gen n = (n + 1) % 2 ^ 64

abbrev pub is_set : Text → Text → SetEntry → Bool
is_set maker model e = e.row.maker == maker && e.row.model == model

-- whether the primary key of `files` would be violated
unfoldable pub double_path : List (FileMeta × FileSizeInfo) → Bool
unfolding any
double_path [] = false
double_path ((f, i) ∷ files) = any (λ g. g.0.path == f.path) files || double_path files

-- INSERT … ON CONFLICT(maker, model) DO UPDATE
unfoldable pub put_set : SetEntry → List SetEntry → List SetEntry
put_set e [] = e ∷ []
put_set e (x ∷ xs) = if is_set e.row.maker e.row.model x then e ∷ xs else x ∷ put_set e xs

unfoldable pub upsert_set :
    RawdbMeta
    → Option Text
    → List (FileMeta × FileSizeInfo)
    → Cache
    → Result AppError (Unit {0}) × Cache
upsert_set meta etag files c = if double_path files then (err other, c) else (
  ok tt,
  record c {
    sets = put_set (record { row = meta.set; meta_etag = etag; files = files }) c.sets;
    sets_gen = next_gen c.sets_gen;
  },
)

unfoldable pub delete_set : Text → Text → Cache → Cache
delete_set maker model c = record c {
  sets = retain (λ e. not (is_set maker model e)) c.sets;
  sets_gen = next_gen c.sets_gen;
}

unfoldable pub get_set : Text → Text → Cache → Option SetMeta
get_set maker model c = elim (find (is_set maker model) c.sets) [
  | none ↦ none
  | some e ↦ some e.row
]

unfoldable pub get_set_meta_etag : Text → Text → Cache → Option Text
get_set_meta_etag maker model c = elim (find (is_set maker model) c.sets) [
  | none ↦ none
  | some e ↦ e.meta_etag
]

unfoldable pub set_keys : List SetEntry → List (Text × Text)
set_keys [] = []
set_keys (e ∷ es) = (e.row.maker, e.row.model) ∷ set_keys es

unfoldable pub list_set_keys : Cache → List (Text × Text)
unfolding set_keys
list_set_keys c = set_keys c.sets

abbrev pub is_pending : Text → PendingEntry → Bool
is_pending upload_id e = e.upload_id == upload_id

unfoldable pub upsert_pending :
    Text
    → RawdbMeta
    → Option Text
    → List (FileMeta × FileSizeInfo)
    → Cache
    → Result AppError (Unit {0}) × Cache
upsert_pending upload_id meta etag files c = if double_path files then (err other, c) else (
  ok tt,
  record c {
    pending =
        retain (λ e. not (is_pending upload_id e)) c.pending
        ++ record { upload_id = upload_id; row = meta.set; meta_etag = etag; files = files } ∷ [];
    pending_gen = next_gen c.pending_gen;
  },
)

unfoldable pub delete_pending : Text → Cache → Cache
delete_pending upload_id c = record c {
  pending = retain (λ e. not (is_pending upload_id e)) c.pending;
  pending_gen = next_gen c.pending_gen;
}

unfoldable pub get_pending_meta_etag : Text → Cache → Option Text
get_pending_meta_etag upload_id c = elim (find (is_pending upload_id) c.pending) [
  | none ↦ none
  | some e ↦ e.meta_etag
]

unfoldable pub upload_ids : List PendingEntry → List Text
upload_ids [] = []
upload_ids (e ∷ es) = e.upload_id ∷ upload_ids es

unfoldable pub list_pending_upload_ids : Cache → List Text
unfolding upload_ids
list_pending_upload_ids c = upload_ids c.pending

-- the primary keys of `user_roles` (sub, role) and of `users` (sub)
unfoldable pub double_text : List Text → Bool
unfolding any
double_text [] = false
double_text (r ∷ rs) = any (λ q. q == r) rs || double_text rs

unfoldable pub bad_users : List UserRow → Bool
unfolding double_text any
bad_users [] = false
bad_users (u ∷ us) = (double_text u.roles || any (λ v. v.sub == u.sub) us) || bad_users us

unfoldable pub replace_users :
    Option Text → List UserRow → Cache → Result AppError (Unit {0}) × Cache
unfolding bad_users
replace_users etag users c =
    if bad_users users
    then (err other, c)
    else (ok tt, record c { users = users; users_etag = etag })

unfoldable pub get_user : Text → Cache → Option UserRow
get_user sub c = find (λ u. u.sub == sub) c.users

abbrev pub has_hash : Text → UserRow → Bool
has_hash hash u = elim u.api_key_hash [ none ↦ false | some h ↦ h == hash ]

-- SELECT … FROM users WHERE api_key_hash = ?, of which the first row is taken
unfoldable pub find_user_by_api_key_hash : Text → Cache → Option UserRow
find_user_by_api_key_hash hash c = find (has_hash hash) c.users
