-- ===== src/Scanner/Mirror.antt =====
-- backend/src/cache/scanner.rs: `scan_users`, and the prefixes of the two kinds of entries.
use rawdb.Base.{
  ℕ, ◌≡◌, refl, sym, ap, ◌∙◌, ◌⊎◌, Option, none, some, Option-cases, Bool-cases, Result-cases, List,
  [], inl, inr, Text, Result, ok, err,
}
use rawdb.Error.{AppError}
use rawdb.S3.{S3, Bytes, Object, head_info, IsStore}
use rawdb.Auth.{UserRow}
use rawdb.Cache.{Cache, replace_users, bad_users}
use rawdb.Scanner.{users_key, same_etag}
use rawdb.Scanner.Pass.{parse_users_toml, load_users, scan_users, rewrote}

head_none : (o : Option Object) → head_info o ≡ none → o ≡ none
head_none none h = refl
head_none (some o) h = cc

module _ {St : Type 0} {s3 : S3 St} (st : IsStore s3) (from_utf8 : Bytes → Option Text)
    (users_from_str : Text → Option (List UserRow)) where
  -- the cache has the users of the file as it stood at `s'`, and its ETag
  abbrev pub IsLoaded : St → Cache → Cache → Type 0
  IsLoaded s' c c' =
      (o : Object) × (us : List UserRow) × (st.contents s' users_key ≡ some o)
      × (parse_users_toml from_utf8 users_from_str o.body ≡ some us)
      × (c' ≡ record c { users = us; users_etag = o.etag })

  -- the file is gone at `s`, and the cache has no users
  abbrev pub IsCleared : St → Cache → Cache → Type 0
  IsCleared s c c' =
      (st.contents s users_key ≡ none) × (c' ≡ record c { users = []; users_etag = none })

  abbrev pub IsUsersScan : St → St → Cache → Result AppError ℕ × Cache → Type 0
  IsUsersScan s s' c (err e, c') = c' ≡ c
  IsUsersScan s s' c (ok n, c') =
      ((n ≡ 0) × (c' ≡ c)) ⊎ ((n ≡ 1) × (IsCleared s c c' ⊎ IsLoaded s' c c'))

  load_users-IsUsersScan :
      (s s' : St) (c : Cache) → IsUsersScan s s' c (load_users s3 from_utf8 users_from_str s' c)
  unfolding load_users replace_users
  load_users-IsUsersScan s s' c = elim (Result-cases (s3.get_bytes users_key s')) [
    | inr (x, e) ↦ rw (e, load_users) refl
    | inl ((b, etag), e) ↦ elim (Option-cases (parse_users_toml from_utf8 users_from_str b)) [
      | inl q ↦ rw (e, load_users, q) refl
      | inr (us, q) ↦ elim (Bool-cases (bad_users us)) [
        | inl w ↦ rw (e, load_users, q, w, replace_users) refl
        | inr w ↦
            let (o, i, j, k) = st.get_sound _ _ b etag e in
            rw (e, load_users, q, w, replace_users)
              (inr (
                refl,
                inr (
                  o,
                  us,
                  i,
                  ap (parse_users_toml from_utf8 users_from_str) j ∙ q,
                  ap (λ x. record c { users = us; users_etag = x }) (sym k),
                ),
              ))
      ]
    ]
  ]

  cleared :
      (s s' : St) (c : Cache)
      → st.contents s users_key ≡ none
      → (old : Option Text)
      → IsUsersScan s s' c
          (elim old [ none ↦ (ok 0, c) | some e ↦ rewrote (replace_users none [] c) ])
  unfolding replace_users bad_users
  cleared s s' c h none = inl (refl, refl)
  cleared s s' c h (some e) = inr (refl, inl (h, refl))

  -- A pass over the users leaves the cache as it was, answering 0 or an error, or answers 1. Then
  -- the file was gone at the HEAD and the cache has no user; or the cache has the users and the ETag
  -- of the file as it stood at the GET. In no case does it touch the tables of the sets.
  pub scan_users-IsUsersScan :
      (s s' : St) (c : Cache) → IsUsersScan s s' c (scan_users s3 from_utf8 users_from_str s s' c)
  unfolding scan_users replace_users
  scan_users-IsUsersScan s s' c = elim (Result-cases (s3.head users_key s)) [
    | inr (x, e) ↦ rw (e, scan_users) refl
    | inl (none, e) ↦
        rw (e, scan_users) (cleared s s' c (head_none _ (st.head_sound _ _ none e)) c.users_etag)
    | inl (some h, e) ↦ elim (Bool-cases (same_etag h.etag c.users_etag)) [
      | inl q ↦ rw (e, scan_users, q) (inl (refl, refl))
      | inr q ↦ rw (e, scan_users, q) (load_users-IsUsersScan s s' c)
    ]
  ]
