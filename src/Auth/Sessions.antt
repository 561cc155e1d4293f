-- ===== src/Auth/Sessions.antt =====
-- The methods of `AuthService` over refresh sessions: login, rotation, logout and the list of
-- sessions (app/modules/auth/service.py).
pub mod Rotation
pub mod Reuse
use text.Mathlib.Text.{◌==◌ as str_eq}
use mathlib.Core.List.{reverse}
use student_knowledge_hub.Prelude.{
  ℕ, ◌+◌, String, Bool, true, false, ◌&&◌, ◌||◌, Option, none, some, List, [], ◌∷◌, ◌++◌, not, ◌==◌,
  leb, filter, is_some, is_none, find, get_row, put_row, update_where, if◌then◌else◌,
}
use student_knowledge_hub.Service.{
  Handler, authentication_error, resource_not_found, runtime_error, pure, raise, skip, gets,
  or_raise, raise_if, modify, commit, ◌>>=◌, ◌>>◌,
}
use student_knowledge_hub.Hub.Tables.{UserRole, User, Hub, user_keyed}
use student_knowledge_hub.Security.Revocation.{Claims}
use student_knowledge_hub.Auth.Model.{
  RefreshTokenSession, AuthDb, session_keyed, Crypto, Revocations, AuthSettings, access_claims,
  refresh_claims, outside, get_by_email,
}

pub record TokenPair : Type 0 where
  pub access_token : String
  pub refresh_token : String
  pub role : UserRole

abbrev blocked : String
blocked = "Hisobingiz bloklangan yoki nofaol. Iltimos, administrator bilan bog'laning."

-- `_revoke_all_refresh_tokens`: the sessions of the user that are not revoked are so now.
abbrev pub revoke_session_at : ℕ → RefreshTokenSession → RefreshTokenSession
revoke_session_at now t = record t { revoked_at = some now }

unfoldable pub revoke_all : ℕ → ℕ → AuthDb → AuthDb
revoke_all now user_id d = record d {
  refresh_sessions =
      update_where (λ t. t.user_id == user_id && is_none t.revoked_at) (revoke_session_at now)
        d.refresh_sessions;
}

-- The row that `_issue_token_pair` adds for a refresh token with these claims.
abbrev pub issued_session : ℕ → User → Claims → String → RefreshTokenSession
issued_session id user claims token_hash = record {
  id = id;
  user_id = user.id;
  jti = claims.jti;
  token_hash = token_hash;
  expires_at = claims.exp;
  used_at = none;
  revoked_at = none;
  replaced_by_jti = none;
}

-- Three new ids have been taken: for the access token, the refresh token and the row.
abbrev pub with_session : RefreshTokenSession → AuthDb → AuthDb
with_session t d = record d {
  refresh_sessions = d.refresh_sessions ++ t ∷ [];
  hub = record d.hub { next_id = d.hub.next_id + 3 };
}

abbrev pub is_spent : ℕ → RefreshTokenSession → Bool
is_spent now t = is_some t.revoked_at || is_some t.used_at || leb t.expires_at now

-- What the rotation makes of the session of the token presented.
abbrev pub rotated : ℕ → ℕ → RefreshTokenSession → RefreshTokenSession
rotated now new_jti t = record t {
  used_at = some now;
  revoked_at = some now;
  replaced_by_jti = some new_jti;
}

-- The sessions of the user, latest first.
unfoldable pub list_sessions : ℕ → AuthDb → List RefreshTokenSession
list_sessions user_id d = filter (λ t. t.user_id == user_id) (reverse d.refresh_sessions)

module _ {E : Type 0} (crypto : Crypto) (settings : AuthSettings) where
  unfoldable pub issue_token_pair : ℕ → User → Handler AuthDb E TokenPair
  issue_token_pair now user = do
    next ← gets (λ d. d.hub.next_id)
    let refresh_token = crypto.encode (refresh_claims settings now user (next + 1))
    claims ← or_raise (crypto.decode now refresh_token) (authentication_error "Invalid token")
    modify (with_session (issued_session (next + 2) user claims (crypto.sha256_text refresh_token)))
    pure (record {
      access_token = crypto.encode (access_claims settings now user next);
      refresh_token = refresh_token;
      role = user.role;
    })

  unfoldable pub login : ℕ → String → String → Handler AuthDb E TokenPair
  unfolding issue_token_pair
  login now email password = do
    found ← gets (get_by_email email)
    user ← or_raise found (authentication_error "Invalid credentials")
    raise_if (not (crypto.verify_password password user.hashed_password))
        (authentication_error "Invalid credentials")
    raise_if (not user.is_active) (authentication_error blocked)
    tokens ← issue_token_pair now user
    commit
    pure tokens

  -- The handling of a token whose session is unknown or has another hash: all sessions of its
  -- subject end, and that is committed before the error is raised.
  abbrev revoke_family : {A : Type 0} → ℕ → ℕ → String → Handler AuthDb E A
  revoke_family now user_id message = do
    modify (revoke_all now user_id)
    commit
    raise (authentication_error message)

  abbrev checked_session :
      ℕ → Claims → String → Option RefreshTokenSession → Handler AuthDb E RefreshTokenSession
  checked_session now claims refresh_token none =
      revoke_family now claims.sub "Refresh token is invalid"
  checked_session now claims refresh_token (some t) =
      if not (str_eq t.token_hash (crypto.sha256_text refresh_token))
      then revoke_family now claims.sub "Refresh token is invalid"
      else pure t

  -- `_get_refresh_session`, with the claims that the token decodes to.
  unfoldable pub get_refresh_session : ℕ → Claims → String → Handler AuthDb E RefreshTokenSession
  get_refresh_session now claims refresh_token = do
    found ← gets (λ d. find (λ t. t.jti == claims.jti) d.refresh_sessions)
    checked_session now claims refresh_token found

  unfoldable pub refresh : ℕ → String → Handler AuthDb E TokenPair
  unfolding get_refresh_session issue_token_pair
  refresh now refresh_token = do
    claims ← or_raise (crypto.decode now refresh_token) (authentication_error "Invalid token")
    raise_if (not (str_eq claims.type "refresh")) (authentication_error "Invalid token type")
    found ← gets (λ d. get_row claims.sub d.hub.users)
    user ← or_raise found (authentication_error "User not found")
    raise_if (not user.is_active) (authentication_error blocked)
    t ← get_refresh_session now claims refresh_token
    if not (t.user_id == user.id)
        then revoke_family now user.id "Invalid refresh token"
        else if is_spent now t
        then revoke_family now user.id "Refresh token has already been used or revoked"
        else do
          tokens ← issue_token_pair now user
          new_claims ←
              or_raise (crypto.decode now tokens.refresh_token)
                (authentication_error "Invalid token")
          modify (λ d. record d {
            refresh_sessions = put_row (rotated now new_claims.jti t) d.refresh_sessions;
          })
          commit
          pure tokens

  unfoldable pub logout_session : ℕ → String → Handler AuthDb E (Unit {0})
  unfolding get_refresh_session
  logout_session now refresh_token = do
    claims ← or_raise (crypto.decode now refresh_token) (authentication_error "Invalid token")
    raise_if (not (str_eq claims.type "refresh")) (authentication_error "Invalid token type")
    t ← get_refresh_session now claims refresh_token
    modify
        (λ d. record d { refresh_sessions = put_row (revoke_session_at now t) d.refresh_sessions })
    commit

  abbrev logout_refresh : ℕ → Option String → Handler AuthDb E (Unit {0})
  logout_refresh now none = skip
  logout_refresh now (some refresh_token) = logout_session now refresh_token

  abbrev logout_access : Revocations E → ℕ → Option String → Handler AuthDb E (Unit {0})
  logout_access revocations now none = skip
  logout_access revocations now (some token) = outside (revocations.revoke_token now token)

  -- `none` stands for a token that is missing or empty.
  unfoldable pub logout :
      Revocations E → ℕ → Option String → Option String → Handler AuthDb E (Unit {0})
  unfolding logout_session
  logout revocations now refresh_token access_token = do
    logout_access revocations now access_token
    logout_refresh now refresh_token

module _ {E : Type 0} where
  unfoldable pub revoke_session : ℕ → User → ℕ → Handler AuthDb E (Unit {0})
  revoke_session now user session_id = do
    found ← gets (λ d. find (λ t. t.id == session_id && t.user_id == user.id) d.refresh_sessions)
    t ← or_raise found (resource_not_found "Session not found")
    modify
        (λ d. record d { refresh_sessions = put_row (revoke_session_at now t) d.refresh_sessions })
    commit

  unfoldable pub logout_all : ℕ → User → Handler AuthDb E (Unit {0})
  logout_all now user = do modify (revoke_all now user.id); commit
