-- ===== src/Users/Edit.antt =====
-- backend/src/routes/admin.rs, backend/src/routes/me.rs: what the updates of the users file change.
use rawdb.Base.{
  ◌≡◌, ◌≢◌, refl, inl, inr, false, not, Option, none, some, Option-cases, Bool-cases, [], ◌∷◌, Text,
  ◌==◌, eq_sound, eqb, find, retain, length, length-retain, Result, ok, err, arith,
}
use rawdb.Users.{User, UsersFile, UsersError, not_found}
use rawdb.Users.Admin.{
  find_user, change_user, change_or_missing, PatchUserRequest, patched, patch_in, remove_from,
  set_key,
}

KeepsSub : (User → User) → Type 0
KeepsSub f = (u : User) → (f u).sub ≡ u.sub

find_user-change_user :
    (sub j : Text) (f : User → User) (us : UsersFile)
    → KeepsSub f
    → (sub == j) ≡ false
    → find_user j (change_user sub f us) ≡ find_user j us
unfolding find change_user KeepsSub
find_user-change_user sub j f [] k h = refl
find_user-change_user sub j f (u ∷ us) k h =
    ground (arith, k u, eq_sound u.sub sub, find_user-change_user sub j f us k h)

find_user-change_user_same :
    (sub : Text) (f : User → User) (us : UsersFile) (u : User)
    → KeepsSub f
    → find_user sub us ≡ some u
    → find_user sub (change_user sub f us) ≡ some (f u)
unfolding find change_user KeepsSub
find_user-change_user_same sub f [] u k h = cc
find_user-change_user_same sub f (v ∷ us) u k h =
    ground (arith, k v, find_user-change_user_same sub f us u k)

-- The user's record is changed by `f`, and each other is as it was; or there is no such user.
abbrev pub IsChange : Text → (User → User) → UsersFile → Result UsersError UsersFile → Type 0
IsChange sub f file (err e) = (e ≡ not_found sub) × (find_user sub file ≡ none)
IsChange sub f file (ok next) =
    (u : User) × (find_user sub file ≡ some u)
    × (find_user sub next ≡ some (f u))
    × ((j : Text) → (sub == j) ≡ false → find_user j next ≡ find_user j file)

change_or_missing-IsChange :
    (sub : Text) (f : User → User) (file : UsersFile)
    → KeepsSub f
    → IsChange sub f file (change_or_missing sub f file)
unfolding change_or_missing
change_or_missing-IsChange sub f file k = elim (Option-cases (find_user sub file)) [
  | inl e ↦ rw (e, change_or_missing) (refl, e)
  | inr (u, e) ↦
      rw (e, change_or_missing)
        (
          u,
          e,
          find_user-change_user_same sub f file u k e,
          λ j h. find_user-change_user sub j f file k h,
        )
]

-- a field that the request may give
abbrev IsGiven : {A : Type 0} → Option A → A → A → Type 0
IsGiven none old new = new ≡ old
IsGiven (some x) old new = new ≡ x

-- a name that is given is set; a request cannot remove one
abbrev IsNamed : Option Text → Option Text → Option Text → Type 0
IsNamed none old new = new ≡ old
IsNamed (some name) old new = new ≡ some name

-- a user before and after a patch
abbrev IsPatched : PatchUserRequest → User → User → Type 0
IsPatched req u v =
    IsNamed req.display_name u.display_name v.display_name
    × IsGiven req.roles u.roles v.roles
    × IsGiven req.blocked u.blocked v.blocked
    × (v.sub ≡ u.sub)
    × (v.added_at ≡ u.added_at)
    × (v.added_by ≡ u.added_by)
    × (v.api_key_hash ≡ u.api_key_hash)

abbrev pub IsPatch : Text → PatchUserRequest → UsersFile → Result UsersError UsersFile → Type 0
IsPatch sub req file (err e) = (e ≡ not_found sub) × (find_user sub file ≡ none)
IsPatch sub req file (ok next) =
    (u v : User) × (find_user sub file ≡ some u)
    × (find_user sub next ≡ some v)
    × IsPatched req u v
    × ((j : Text) → (sub == j) ≡ false → find_user j next ≡ find_user j file)

patched-IsPatched : (req : PatchUserRequest) (u : User) → IsPatched req u (patched req u)
unfolding patched
patched-IsPatched req u = (
  named req.display_name,
  set u.roles req.roles,
  set u.blocked req.blocked,
  refl,
  refl,
  refl,
  refl,
)
  where
    named :
        (o : Option Text)
        → IsNamed o u.display_name (elim o [ none ↦ u.display_name | some d ↦ some d ])
    named none = refl
    named (some d) = refl

    set : {A : Type 0} (old : A) (o : Option A) → IsGiven o old (elim o [ none ↦ old | some x ↦ x ])
    set old none = refl
    set old (some x) = refl

-- The update of `patch_user` sets the display name, the roles and the block of the user as far as the request
-- names them, and leaves the user's other fields and each other user as they are; it fails iff there is
-- no such user.
pub patch_in-IsPatch :
    (sub : Text) (req : PatchUserRequest) (file : UsersFile)
    → IsPatch sub req file (patch_in sub req file)
unfolding patch_in patched KeepsSub
patch_in-IsPatch sub req file =
    fields (change_or_missing sub (patched req) file)
      (change_or_missing-IsChange sub (patched req) file (λ u. refl))
  where
    fields :
        (r : Result UsersError UsersFile)
        → IsChange sub (patched req) file r
        → IsPatch sub req file r
    fields (err e) c = c
    fields (ok next) (u, e, k, same) = (u, patched req u, e, k, patched-IsPatched req u, same)

-- The update of `create_api_key`: the same, for the hash of the key.
pub set_key-IsChange :
    (sub key_hash : Text) (file : UsersFile)
    → IsChange sub (λ u. record u { api_key_hash = some key_hash }) file (set_key sub key_hash file)
unfolding set_key KeepsSub
set_key-IsChange sub key_hash file = change_or_missing-IsChange sub _ file (λ u. refl)

find_user-retain :
    (sub j : Text) (us : UsersFile)
    → (sub == j) ≡ false
    → find_user j (retain (λ u. not (u.sub == sub)) us) ≡ find_user j us
unfolding find retain
find_user-retain sub j [] h = refl
find_user-retain sub j (u ∷ us) h = ground (arith, eq_sound u.sub sub, find_user-retain sub j us h)

find_user-retain_same :
    (sub : Text) (us : UsersFile) → find_user sub (retain (λ u. not (u.sub == sub)) us) ≡ none
unfolding find retain
find_user-retain_same sub [] = refl
find_user-retain_same sub (u ∷ us) = ground (arith, find_user-retain_same sub us)

-- a file that keeps its length has lost nobody
length-retain-none :
    (sub : Text) (us : UsersFile)
    → length (retain (λ u. not (u.sub == sub)) us) ≡ length us
    → find_user sub us ≡ none
unfolding find retain
length-retain-none sub [] h = refl
length-retain-none sub (u ∷ us) h =
    ground (arith, length-retain (λ v. not (v.sub == sub)) us, length-retain-none sub us)

retain-none :
    (sub : Text) (us : UsersFile)
    → find_user sub us ≡ none
    → length (retain (λ u. not (u.sub == sub)) us) ≡ length us
unfolding find retain
retain-none sub [] h = refl
retain-none sub (u ∷ us) h = ground (arith, retain-none sub us)

abbrev pub IsRemoval : Text → UsersFile → Result UsersError UsersFile → Type 0
IsRemoval sub file (err e) = (e ≡ not_found sub) × (find_user sub file ≡ none)
IsRemoval sub file (ok next) =
    (find_user sub file ≢ none)
    × (find_user sub next ≡ none)
    × ((j : Text) → (sub == j) ≡ false → find_user j next ≡ find_user j file)

-- The update of `delete_user` removes the user and leaves the record of each other one; it fails iff
-- there is no such user.
pub remove_from-IsRemoval :
    (sub : Text) (file : UsersFile) → IsRemoval sub file (remove_from sub file)
unfolding remove_from
remove_from-IsRemoval sub file =
    elim (Bool-cases (eqb (length (retain (λ u. not (u.sub == sub)) file)) (length file))) [
      | inl e ↦ rw (e, remove_from) (refl, length-retain-none sub file (ground arith))
      | inr e ↦
          rw (e, remove_from)
            (
              λ h. ground (arith, retain-none sub file h),
              find_user-retain_same sub file,
              λ j h. find_user-retain sub j file h,
            )
    ]
