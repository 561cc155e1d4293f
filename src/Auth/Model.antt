-- ===== src/Auth/Model.antt =====
-- The tables of app/modules/auth/models.py, and what the service takes from elsewhere: the tokens of
-- app/core/security.py and the store of revoked access tokens.
use student_knowledge_hub.Prelude.{ℕ, ◌+◌, ◌*◌, String, Bool, Option, List, Keyed, find}
use text.Mathlib.Text.{◌==◌ as str_eq}
use student_knowledge_hub.Service.{Handler, Result, modify}
use student_knowledge_hub.Hub.Tables.{User, Hub}
use student_knowledge_hub.Security.Revocation.{Claims}

pub record RefreshTokenSession : Type 0 where
  pub id : ℕ
  pub user_id : ℕ
  pub jti : ℕ
  pub token_hash : String
  pub expires_at : ℕ
  pub used_at : Option ℕ
  pub revoked_at : Option ℕ
  pub replaced_by_jti : Option ℕ

-- A row of `PasswordResetToken` or of `EmailVerificationToken`.
pub record OneTimeToken : Type 0 where
  pub id : ℕ
  pub user_id : ℕ
  pub token : String
  pub expires_at : ℕ
  pub consumed : Bool

pub data EmailStatus : Type 0 where
  email_pending email_retry email_sent email_failed : EmailStatus

pub record EmailOutbox : Type 0 where
  pub id : ℕ
  pub recipient_email : String
  pub subject : String
  pub link_token : String
  pub status : EmailStatus
  pub attempt_count : ℕ
  pub max_attempts : ℕ
  pub next_attempt_at : ℕ
  pub last_attempt_at : Option ℕ
  pub sent_at : Option ℕ
  pub last_error : Option String

pub record AuthDb : Type 0 where
  pub hub : Hub
  pub refresh_sessions : List RefreshTokenSession
  pub reset_tokens : List OneTimeToken
  pub verification_tokens : List OneTimeToken
  pub email_outbox : List EmailOutbox

instance abbrev pub session_keyed : Keyed RefreshTokenSession
session_keyed = record { key = λ t. t.id }

instance abbrev pub token_keyed : Keyed OneTimeToken
token_keyed = record { key = λ t. t.id }

instance abbrev pub email_keyed : Keyed EmailOutbox
email_keyed = record { key = λ e. e.id }

-- Third-party code: `jose`, `argon2`, `hashlib` and the text of a `uuid4`. `decode now token` is
-- `none` where `decode_token` raises.
pub record Crypto : Type 0 where
  pub encode : Claims → String
  pub decode : ℕ → String → Option Claims
  pub sha256_text : String → String
  pub hash_password : String → String
  pub verify_password : String → String → Bool
  pub random_token : ℕ → String

-- What the service calls of the revocation store, over the state of that store.
pub record Revocations (E : Type 0) : Type 0 where
  pub revoke_token : ℕ → String → E → Result (Unit {0}) × E
  pub revoke_all_for_user : ℕ → ℕ → E → Result (Unit {0}) × E

pub record AuthSettings : Type 0 where
  pub access_token_expire_minutes : ℕ
  pub refresh_token_expire_days : ℕ
  pub email_verification_token_expire_hours : ℕ
  pub mail_enabled : Bool
  pub email_outbox_max_attempts : ℕ

-- The claims that `create_token` signs, with the next unused id for the `jti`.
abbrev pub token_claims : ℕ → User → String → ℕ → ℕ → Claims
token_claims now user type jti lifetime = record {
  sub = user.id;
  role = user.role;
  type = type;
  jti = jti;
  iat = now;
  exp = now + lifetime;
}

abbrev pub access_claims : AuthSettings → ℕ → User → ℕ → Claims
access_claims settings now user jti =
    token_claims now user "access" jti (settings.access_token_expire_minutes * 60)

abbrev pub refresh_claims : AuthSettings → ℕ → User → ℕ → Claims
refresh_claims settings now user jti =
    token_claims now user "refresh" jti (settings.refresh_token_expire_days * 86400)

-- A call of the revocation store, whose exceptions go through.
abbrev pub outside : {E : Type 0} → (E → Result (Unit {0}) × E) → Handler AuthDb E (Unit {0})
outside f s = let (r, o) = f s.outside in (r, record s { outside = o })

-- `UserRepository.get_by_email`
abbrev pub get_by_email : String → AuthDb → Option User
get_by_email email d = find (λ u. str_eq u.email email) d.hub.users

-- A change of the shared tables.
abbrev pub on_hub : {E : Type 0} → (Hub → Hub) → Handler AuthDb E (Unit {0})
on_hub f s = modify (λ d. record d { hub = f d.hub }) s
