-- ===== src/Scanner/Pass.antt =====
-- backend/src/cache/scanner.rs: the workers, which write the cache, the three passes and the
-- refreshes that the handlers spawn.
use rawdb.Base.{
  ℕ, ◌+◌, Bool, Option, none, some, List, [], ◌∷◌, ◌++◌, Text, ◌==◌, ◌&&◌, any, length, Result, ok,
  err, ◌>>=◌, map_err, if◌then◌else◌,
}
use rawdb.Error.{AppError, other}
use rawdb.S3.{S3, Bytes}
use rawdb.Meta.{RawdbMeta}
use rawdb.Auth.{UserRow}
use rawdb.Cache.{
  Cache, upsert_set, delete_set, get_set_meta_etag, list_set_keys, upsert_pending, delete_pending,
  get_pending_meta_etag, list_pending_upload_ids, replace_users,
}
use rawdb.Scanner.{
  samples_prefix, pending_prefix, users_key, split_set_prefix, split_pending_prefix, SetOutcome,
  updated, unchanged, meta_missing, incomplete, Reading, done, ready, Moments, failed, read_entry,
  same_etag,
}

pub record PassResult : Type 0 where
  pub seen : ℕ
  pub updated : ℕ
  pub deleted : ℕ
  pub transient_failures : ℕ
  pub incomplete : ℕ

unfoldable pub tally : Result AppError SetOutcome → PassResult → PassResult
tally (ok updated) res = record res { updated = res.updated + 1 }
tally (ok unchanged) res = res
tally (ok meta_missing) res = res
tally (ok (incomplete reason)) res = record res { incomplete = res.incomplete + 1 }
tally (err e) res = record res { transient_failures = res.transient_failures + 1 }

-- the answer of a worker after its upsert
abbrev pub wrote : Result AppError (Unit {0}) × Cache → Result AppError SetOutcome × Cache
wrote (ok u, c) = (ok updated, c)
wrote (err e, c) = (err e, c)

-- the answer of `scan_users` after `replace_users`
abbrev pub rewrote : Result AppError (Unit {0}) × Cache → Result AppError ℕ × Cache
rewrote (ok u, c) = (ok 1, c)
rewrote (err e, c) = (err e, c)

-- the match of `refresh_one_set` and `refresh_one_pending`
abbrev pub after_scan :
    (Cache → Cache) → Result AppError SetOutcome × Cache → Result AppError (Unit {0}) × Cache
after_scan delete (ok updated, c) = (ok tt, c)
after_scan delete (ok unchanged, c) = (ok tt, c)
after_scan delete (ok meta_missing, c) = (ok tt, delete c)
after_scan delete (ok (incomplete reason), c) = (ok tt, c)
after_scan delete (err e, c) = (err e, c)

unfoldable pub store_set : Cache → Result AppError Reading → Result AppError SetOutcome × Cache
store_set c (err e) = (err e, c)
store_set c (ok (done outcome)) = (ok outcome, c)
store_set c (ok (ready meta etag files)) = wrote (upsert_set meta etag files c)

unfoldable pub store_pending :
    Text → Cache → Result AppError Reading → Result AppError SetOutcome × Cache
store_pending upload_id c (err e) = (err e, c)
store_pending upload_id c (ok (done outcome)) = (ok outcome, c)
store_pending upload_id c (ok (ready meta etag files)) =
    wrote (upsert_pending upload_id meta etag files c)

unfoldable pub delete_sets : List (Text × Text) → Cache → Cache
delete_sets [] c = c
delete_sets ((maker, model) ∷ keys) c = delete_sets keys (delete_set maker model c)

unfoldable pub delete_pendings : List Text → Cache → Cache
delete_pendings [] c = c
delete_pendings (id ∷ ids) c = delete_pendings ids (delete_pending id c)

abbrev pub same_key : Text × Text → Text × Text → Bool
same_key (maker, model) (m, n) = m == maker && n == model

-- `filter_map(split)`
abbrev pub keys_of {ℓ} : {K : Type ℓ} → (Text → Option K) → List Text → List K
keys_of split [] = []
keys_of split (p ∷ ps) = elim (split p) [ none ↦ keys_of split ps | some k ↦ k ∷ keys_of split ps ]

-- `prior.difference(&live)`
unfoldable pub difference {ℓ} : {K : Type ℓ} → (K → K → Bool) → List K → List K → List K
difference same [] live = []
difference same (k ∷ ks) live =
    let rest = difference same ks live in if any (same k) live then rest else k ∷ rest

abbrev pub no_result : ℕ → PassResult
no_result n = record { seen = n; updated = 0; deleted = 0; transient_failures = 0; incomplete = 0 }

module _ {St : Type 0} (s3 : S3 St) (from_utf8 : Bytes → Option Text)
    (from_str : Text → Option RawdbMeta) where
  unfoldable pub scan_one_set :
      Moments St → Text → Text → Text → Cache → Result AppError SetOutcome × Cache
  unfolding store_set
  scan_one_set t prefix maker model c =
      store_set c (read_entry s3 from_utf8 from_str (get_set_meta_etag maker model c) prefix t)

  unfoldable pub scan_one_pending :
      Moments St → Text → Text → Cache → Result AppError SetOutcome × Cache
  unfolding store_pending
  scan_one_pending t prefix upload_id c =
      store_pending upload_id c
        (read_entry s3 from_utf8 from_str (get_pending_meta_etag upload_id c) prefix t)

  -- the listing of two levels
  unfoldable pub sub_prefixes : List Text → St → Result AppError (List Text)
  sub_prefixes [] s = ok []
  sub_prefixes (mp ∷ mps) s = do
    sub ← map_err failed (s3.list_common_prefixes mp s)
    more ← sub_prefixes mps s
    ok (sub ++ more)

  unfoldable pub model_prefixes : St → Result AppError (List Text)
  unfolding sub_prefixes
  model_prefixes s = do
    makers ← map_err failed (s3.list_common_prefixes samples_prefix s)
    sub_prefixes makers s

  -- the tasks of a pass, with what `tally` has counted
  unfoldable pub run_sets :
      (Text → Moments St) → List Text → PassResult → Cache → PassResult × Cache
  unfolding scan_one_set tally
  run_sets t [] res c = (res, c)
  run_sets t (prefix ∷ ps) res c = elim (split_set_prefix prefix) [
    | none ↦ run_sets t ps res c
    | some (maker, model) ↦
        let out = scan_one_set (t prefix) prefix maker model c in
        run_sets t ps (tally out.0 res) out.1
  ]

  unfoldable pub run_pendings :
      (Text → Moments St) → List Text → PassResult → Cache → PassResult × Cache
  unfolding scan_one_pending tally
  run_pendings t [] res c = (res, c)
  run_pendings t (prefix ∷ ps) res c = elim (split_pending_prefix prefix) [
    | none ↦ run_pendings t ps res c
    | some id ↦
        let out = scan_one_pending (t prefix) prefix id c in
        run_pendings t ps (tally out.0 res) out.1
  ]

  -- the tasks and the deletion sweep, over the listed prefixes and the keys of the cache before
  unfoldable pub sweep_sets : (Text → Moments St) → List Text → Cache → PassResult × Cache
  unfolding run_sets delete_sets difference list_set_keys
  sweep_sets t prefixes c =
      let dead = difference same_key (list_set_keys c) (keys_of split_set_prefix prefixes) in
      let out = run_sets t prefixes (no_result (length prefixes)) c in
      (record out.0 { deleted = length dead }, delete_sets dead out.1)

  unfoldable pub scan_samples :
      (Text → Moments St) → St → Cache → Result AppError PassResult × Cache
  unfolding sweep_sets
  scan_samples t s c = elim (model_prefixes s) [
    | err e ↦ (err e, c)
    | ok prefixes ↦ let out = sweep_sets t prefixes c in (ok out.0, out.1)
  ]

  unfoldable pub sweep_pending : (Text → Moments St) → List Text → Cache → PassResult × Cache
  unfolding run_pendings delete_pendings difference list_pending_upload_ids
  sweep_pending t prefixes c =
      let dead =
        difference ◌==◌ (list_pending_upload_ids c) (keys_of split_pending_prefix prefixes) in
      let out = run_pendings t prefixes (no_result (length prefixes)) c in
      (record out.0 { deleted = length dead }, delete_pendings dead out.1)

  unfoldable pub scan_pending :
      (Text → Moments St) → St → Cache → Result AppError PassResult × Cache
  unfolding sweep_pending
  scan_pending t s c = elim (s3.list_common_prefixes pending_prefix s) [
    | err e ↦ (err (failed e), c)
    | ok prefixes ↦ let out = sweep_pending t prefixes c in (ok out.0, out.1)
  ]

  unfoldable pub refresh_one_set :
      Moments St → Text → Text → Cache → Result AppError (Unit {0}) × Cache
  refresh_one_set t maker model c =
      after_scan (delete_set maker model)
        (scan_one_set t (samples_prefix ++ maker ++ b'/' ∷ model ++ b'/' ∷ []) maker model c)

  unfoldable pub refresh_one_pending :
      Moments St → Text → Cache → Result AppError (Unit {0}) × Cache
  refresh_one_pending t id c =
      after_scan (delete_pending id) (scan_one_pending t (pending_prefix ++ id ++ b'/' ∷ []) id c)

-- `parse_users_toml`: a `UserEntry` has the fields of a `UserRow`
unfoldable pub parse_users_toml :
    (Bytes → Option Text) → (Text → Option (List UserRow)) → Bytes → Option (List UserRow)
parse_users_toml from_utf8 users_from_str bytes = elim (from_utf8 bytes) [
  | none ↦ none
  | some s ↦ users_from_str s
]

module _ {St : Type 0} (s3 : S3 St) (from_utf8 : Bytes → Option Text)
    (users_from_str : Text → Option (List UserRow)) where
  unfoldable pub load_users : St → Cache → Result AppError ℕ × Cache
  load_users s c = elim (s3.get_bytes users_key s) [
    | err e ↦ (err other, c)
    | ok (bytes, etag) ↦ elim (parse_users_toml from_utf8 users_from_str bytes) [
      | none ↦ (err other, c)
      | some users ↦ rewrote (replace_users etag users c)
    ]
  ]

  -- over the moments of the HEAD and the GET
  unfoldable pub scan_users : St → St → Cache → Result AppError ℕ × Cache
  unfolding load_users
  scan_users s s' c = elim (s3.head users_key s) [
    | err e ↦ (err other, c)
    | ok none ↦ elim c.users_etag [
      | none ↦ (ok 0, c)
      | some old ↦ rewrote (replace_users none [] c)
    ]
    | ok (some h) ↦ if same_etag h.etag c.users_etag then (ok 0, c) else load_users s' c
  ]
