-- ===== src/Auth/Guard.antt =====
-- What a request has shown when the guard lets it through.
use rawdb.Base.{
  ℕ, ◌≡◌, refl, ◌⊎◌, inl, inr, true, false, Option, none, some, Text, ◌==◌, eq_iff, Any, Result, ok,
  err, if◌then◌else◌, arith, Bool-cases,
}
use rawdb.Error.{AppError, forbidden}
use rawdb.Auth.{
  Session, UserRow, session_cookie, bootstrap_sub, extract_cookie, session_extractor, live_session,
  auth_guard, is_role_allowed,
}
use rawdb.Auth.Roles.{Guard, role_bits, passing_roles, Holds, is_role_allowed_iff}

module _ (decode_session : Text → Option Session)
    (get_user : Text → Result AppError (Option UserRow)) where
  -- The user behind a session at this moment: the bootstrap admin with the roles of its token, or a
  -- registered user who is not blocked, with the roles of the users file.
  abbrev pub IsLive : Session → Session → Type 0
  IsLive token sess =
      (token.sub ≡ bootstrap_sub) × (sess ≡ token)
      ⊎ (u : UserRow) × (get_user token.sub ≡ ok (some u))
        × (u.blocked ≡ false)
        × (sess ≡ record token { roles = u.roles })

  -- A guard lets a request through only with a cookie that decodes to a session.
  pub record IsAdmitted (g : Guard) (header : Option Text) (sess : Session) : Type 0 where
    pub cookie : Text
    pub token : Session
    pub sent : extract_cookie header session_cookie ≡ some cookie
    pub decoded : decode_session cookie ≡ some token
    pub live : IsLive token sess
    pub permitted : Any (λ role. Holds sess.roles role) (passing_roles g)

  session_extractor-ok :
      (header : Option Text) (token : Session)
      → session_extractor decode_session header ≡ ok token
      → (c : Text) × (extract_cookie header session_cookie ≡ some c)
        × (decode_session c ≡ some token)
  unfolding session_extractor
  session_extractor-ok header token h = ground arith

  live_session-ok :
      (token sess : Session) → live_session get_user token ≡ ok sess → IsLive token sess
  unfolding live_session
  live_session-ok token sess h = elim (Bool-cases (token.sub == bootstrap_sub)) [
    | inl e ↦ inl ((eq_iff token.sub bootstrap_sub).0 e, ground arith)
    | inr e ↦ inr (registered (get_user token.sub) refl (rw e at h))
  ]
    where
      registered :
          (r : Result AppError (Option UserRow))
          → get_user token.sub ≡ r
          → (elim r [
            | err e ↦ err e
            | ok none ↦ err forbidden
            | ok (some u) ↦
                if u.blocked then err forbidden else ok (record token { roles = u.roles })
          ])
            ≡ ok sess
          → (u : UserRow) × (get_user token.sub ≡ ok (some u))
            × (u.blocked ≡ false)
            × (sess ≡ record token { roles = u.roles })
      registered (err x) q k = cc
      registered (ok none) q k = cc
      registered (ok (some u)) q k = (u, q, ground arith, ground arith)

  auth_guard-ok :
      (bits : ℕ) (header : Option Text) (sess : Session)
      → auth_guard decode_session get_user bits header ≡ ok sess
      → (token : Session) × (session_extractor decode_session header ≡ ok token)
        × (live_session get_user token ≡ ok sess)
        × (is_role_allowed bits sess.roles ≡ true)
  unfolding auth_guard
  auth_guard-ok bits header sess h = ground arith

  -- If the guard admits a request, the request carries a session cookie that decodes, and one of the roles
  -- of its user passes the guard. The user is registered and not blocked now, and the roles are those
  -- of the users mirror and not of the cookie; or it is the bootstrap admin, with the roles of the cookie.
  pub auth_guard-IsAdmitted :
      (g : Guard) (header : Option Text) (sess : Session)
      → auth_guard decode_session get_user (role_bits g) header ≡ ok sess
      → IsAdmitted g header sess
  auth_guard-IsAdmitted g header sess h =
      let (token, extracted, lived, allowed) = auth_guard-ok (role_bits g) header sess h in
      let (c, sent, decoded) = session_extractor-ok header token extracted in
      record {
        cookie = c;
        token = token;
        sent = sent;
        decoded = decoded;
        live = live_session-ok token sess lived;
        permitted = (is_role_allowed_iff g sess.roles).0 allowed;
      }
