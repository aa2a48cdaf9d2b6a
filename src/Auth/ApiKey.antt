-- ===== src/Auth/ApiKey.antt =====
-- backend/src/apikey.rs: resolving the `X-API-Key` header over the users mirror. SHA-256 is an argument.
use rawdb.Base.{
  ◌≡◌, ◌≢◌, ◌↔◌, refl, ap, ◌∙◌, inl, inr, Bool, true, false, Bool-cases, List, [], ◌∷◌, ◌++◌, All,
  find, ◌==◌, eq_iff, HasText, trim_iff, not, Option, none, some, Text, codes, is_empty, trim,
  Result, ok, err, if◌then◌else◌, arith,
}
use rawdb.Error.{AppError}
use rawdb.Cache.{Cache, has_hash, find_user_by_api_key_hash}
use rawdb.Auth.{UserRow, has_role}
use rawdb.Auth.Roles.{Holds, has_role-Holds}

abbrev pub role_apiservice : Text
role_apiservice = codes "apiservice"

module _ (hash : Text → Text)
    (find_user_by_api_key_hash : Text → Result AppError (Option UserRow)) where
  abbrev authorized : UserRow → Option UserRow
  authorized user =
      if user.blocked
      then none
      else if not (has_role user.roles role_apiservice)
      then none
      else some user

  -- `lookup`, over the header's text, if there is one
  unfoldable pub lookup_key : Option Text → Result AppError (Option UserRow)
  lookup_key none = ok none
  lookup_key (some header) =
      let raw = trim header in
      if is_empty raw then ok none else elim (find_user_by_api_key_hash (hash raw)) [
        | err e ↦ err e
        | ok none ↦ ok none
        | ok (some user) ↦ ok (authorized user)
      ]

  -- when the key resolves, by what the query answers
  lookup_key-some :
      (header : Text) (user : UserRow)
      → (lookup_key (some header) ≡ ok (some user)) ↔ (
          (is_empty (trim header) ≡ false)
          × (find_user_by_api_key_hash (hash (trim header)) ≡ ok (some user))
          × (user.blocked ≡ false)
          × Holds user.roles role_apiservice)
  unfolding lookup_key
  lookup_key-some header user = (found, granted)
    where
      found :
          lookup_key (some header) ≡ ok (some user)
          → (is_empty (trim header) ≡ false)
            × (find_user_by_api_key_hash (hash (trim header)) ≡ ok (some user))
            × (user.blocked ≡ false)
            × Holds user.roles role_apiservice
      found h =
          let facts : (is_empty (trim header) ≡ false)
              × (find_user_by_api_key_hash (hash (trim header)) ≡ ok (some user))
              × (user.blocked ≡ false)
              × (has_role user.roles role_apiservice ≡ true) =
            ground arith in
          (facts.0, facts.1, facts.2, (has_role-Holds user.roles role_apiservice).0 facts.3)

      granted :
          (is_empty (trim header) ≡ false)
            × (find_user_by_api_key_hash (hash (trim header)) ≡ ok (some user))
            × (user.blocked ≡ false)
            × Holds user.roles role_apiservice
          → lookup_key (some header) ≡ ok (some user)
      granted (a, b, c, d) = let e = (has_role-Holds user.roles role_apiservice).1 d in ground arith

-- `lookup`, over the users mirror
unfoldable pub lookup : (Text → Text) → Cache → Option Text → Result AppError (Option UserRow)
unfolding lookup_key find_user_by_api_key_hash
lookup hash cache header = lookup_key hash (λ h. ok (find_user_by_api_key_hash h cache)) header

-- the first of the users whose key has the hash
abbrev pub IsHolder : Text → List UserRow → UserRow → Type 0
IsHolder h users user =
    (before after : List UserRow) × (users ≡ before ++ user ∷ after)
    × All (λ u. u.api_key_hash ≢ some h) before
    × (user.api_key_hash ≡ some h)

has_hash_iff : (h : Text) (u : UserRow) → (has_hash h u ≡ true) ↔ (u.api_key_hash ≡ some h)
has_hash_iff h u = go u.api_key_hash
  where
    go : (o : Option Text) → ((elim o [ none ↦ false | some x ↦ x == h ]) ≡ true) ↔ (o ≡ some h)
    go none = ((λ e. cc), (λ e. cc))
    go (some x) = ((λ e. ap some ((eq_iff x h).0 e)), (λ e. (eq_iff x h).1 (cc e)))

find-IsHolder :
    (h : Text) (users : List UserRow) (user : UserRow)
    → find (has_hash h) users ≡ some user
    → IsHolder h users user
unfolding find
find-IsHolder h [] user e = cc
find-IsHolder h (u ∷ us) user e = elim (Bool-cases (has_hash h u)) [
  | inl k ↦ first k (rw (find, k) at e)
  | inr k ↦ later k (find-IsHolder h us user (rw (find, k) at e))
]
  where
    first : has_hash h u ≡ true → some u ≡ some user → IsHolder h (u ∷ us) user
    first k w = rw (← same w) ([], us, refl, tt, (has_hash_iff h u).0 k)
      where
        same : some u ≡ some user → u ≡ user
        same w = cc

    later : has_hash h u ≡ false → IsHolder h us user → IsHolder h (u ∷ us) user
    later k (before, after, w, n, held) =
        (u ∷ before, after, ap (λ r. u ∷ r) w, ((λ q. differs k ((has_hash_iff h u).1 q)), n), held)
      where
        differs : {b : Bool} → b ≡ false → b ≡ true → ⊥
        differs p q = cc

IsHolder-find :
    (h : Text) (before after : List UserRow) (user : UserRow)
    → All (λ u. u.api_key_hash ≢ some h) before
    → user.api_key_hash ≡ some h
    → find (has_hash h) (before ++ user ∷ after) ≡ some user
unfolding find
IsHolder-find h [] after user n held = rw (find, (has_hash_iff h user).1 held) refl
IsHolder-find h (u ∷ before) after user (k, n) held = elim (Bool-cases (has_hash h u)) [
  | inl e ↦ absurd (k ((has_hash_iff h u).0 e))
  | inr e ↦ rw (find, e) (IsHolder-find h before after user n held)
]

-- A key resolves to a user exactly if it is not blank, the user is the first of the users mirror whose
-- stored hash is that of the trimmed key, and the user is not blocked and holds the role `apiservice`.
pub lookup_iff :
    (hash : Text → Text) (cache : Cache) (header : Text) (user : UserRow)
    → (lookup hash cache (some header) ≡ ok (some user)) ↔ (
        HasText header
        × IsHolder (hash (trim header)) cache.users user
        × (user.blocked ≡ false)
        × Holds user.roles role_apiservice)
unfolding lookup find_user_by_api_key_hash
lookup_iff hash cache header user = (found, granted)
  where
    query : Text → Result AppError (Option UserRow)
    query h = ok (find (has_hash h) cache.users)

    held :
        ◌≡◌ {A = Result AppError (Option UserRow)}
          (ok (find (has_hash (hash (trim header))) cache.users))
          (ok (some user))
        → find (has_hash (hash (trim header))) cache.users ≡ some user
    held w = cc

    found :
        lookup hash cache (some header) ≡ ok (some user)
        → HasText header
          × IsHolder (hash (trim header)) cache.users user
          × (user.blocked ≡ false)
          × Holds user.roles role_apiservice
    found e =
        let (a, b, c, d) = (lookup_key-some hash query header user).0 e in
        ((trim_iff header).0 a, find-IsHolder (hash (trim header)) cache.users user (held b), c, d)

    granted :
        HasText header
          × IsHolder (hash (trim header)) cache.users user
          × (user.blocked ≡ false)
          × Holds user.roles role_apiservice
        → lookup hash cache (some header) ≡ ok (some user)
    granted (a, (before, after, e, n, k), c, d) = (lookup_key-some hash query header user).1 (
      (trim_iff header).1 a,
      ap ok (
          ap (find (has_hash (hash (trim header)))) e
          ∙ IsHolder-find (hash (trim header)) before after user n k),
      c,
      d,
    )

-- `metric_username`
unfoldable pub metric_username : Result AppError (Option UserRow) → Text
metric_username (ok (some user)) = user.sub
metric_username (ok none) = codes "public"
metric_username (err e) = codes "public"
