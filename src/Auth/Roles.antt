-- ===== src/Auth/Roles.antt =====
-- Which roles pass which guard.
use rawdb.Base.{
  ℕ, ◌≡◌, ◌↔◌, ◌⊎◌, true, false, ◌||◌, List, [], ◌∷◌, Text, ◌==◌, eq_iff, Any, any_iff, or_iff,
  false_iff,
}
use rawdb.Auth.{
  role_admin, role_reviewer, role_approver, role_editor, role_deleter, has_role, is_role_allowed,
}

-- The guards of the handlers.
pub data Guard : Type 0 where
  admin_only reviewer_or_admin approver_or_admin editor_or_admin : Guard
  deleter_or_admin pending_viewers : Guard

-- ADMIN_ONLY, REVIEWER_OR_ADMIN, …: the constants
abbrev pub role_bits : Guard → ℕ
role_bits admin_only = 2
role_bits reviewer_or_admin = 3
role_bits approver_or_admin = 6
role_bits editor_or_admin = 10
role_bits deleter_or_admin = 18
role_bits pending_viewers = 7

-- The roles that a guard is documented to let through.
abbrev pub passing_roles : Guard → List Text
passing_roles admin_only = role_admin ∷ []
passing_roles reviewer_or_admin = role_admin ∷ role_reviewer ∷ []
passing_roles approver_or_admin = role_admin ∷ role_approver ∷ []
passing_roles editor_or_admin = role_admin ∷ role_editor ∷ []
passing_roles deleter_or_admin = role_admin ∷ role_deleter ∷ []
passing_roles pending_viewers = role_admin ∷ role_reviewer ∷ role_approver ∷ []

abbrev pub Holds : List Text → Text → Type 0
Holds roles role = Any (λ r. r ≡ role) roles

pub has_role-Holds :
    (roles : List Text) (role : Text) → (has_role roles role ≡ true) ↔ Holds roles role
unfolding has_role
has_role-Holds roles role = any_iff (λ r. r == role) (λ r. r ≡ role) roles (λ r. eq_iff r role)

-- A session passes a guard exactly if it holds one of the roles that the guard is for.
pub is_role_allowed_iff :
    (g : Guard) (roles : List Text)
    → (is_role_allowed (role_bits g) roles ≡ true)
      ↔ Any (λ role. Holds roles role) (passing_roles g)
unfolding is_role_allowed
is_role_allowed_iff g roles = go g
  where
    held : (role : Text) → (has_role roles role ≡ true) ↔ Holds roles role
    held = has_role-Holds roles

    one : (a : Text) → ((has_role roles a || false) ≡ true) ↔ (Holds roles a ⊎ ⊥)
    one a = or_iff (has_role roles a) false (held a) false_iff

    two :
        (a b : Text)
        → ((has_role roles a || (has_role roles b || false)) ≡ true)
          ↔ (Holds roles a ⊎ (Holds roles b ⊎ ⊥))
    two a b = or_iff (has_role roles a) (has_role roles b || false) (held a) (one b)

    go :
        (g : Guard)
        → (is_role_allowed (role_bits g) roles ≡ true)
          ↔ Any (λ role. Holds roles role) (passing_roles g)
    go admin_only = one role_admin
    go reviewer_or_admin = two role_admin role_reviewer
    go approver_or_admin = two role_admin role_approver
    go editor_or_admin = two role_admin role_editor
    go deleter_or_admin = two role_admin role_deleter
    go pending_viewers =
        or_iff (has_role roles role_admin)
          (has_role roles role_reviewer || (has_role roles role_approver || false))
          (held role_admin) (two role_reviewer role_approver)
