-- ===== src/Security/Revocation.antt =====
-- `AccessTokenRevocationStore`.
pub mod Laws
use text.Mathlib.Text.{◌==◌ as str_eq}
use student_knowledge_hub.Prelude.{
  ℕ, ◌+◌, ◌-◌, ◌*◌, String, Bool, true, false, not, Option, none, some, List, [], ◌∷◌, leb, is_some,
  if◌then◌else◌,
}
use student_knowledge_hub.Service.{AppError, Result, ok, err, authentication_error}
use student_knowledge_hub.Hub.Tables.{UserRole}
use student_knowledge_hub.Security.Keys.{Key, revoked_access, revoked_all_access}
use student_knowledge_hub.Security.Store
use student_knowledge_hub.Security.Store.{Redis, Store, StoreSettings}

-- The claims of a token that `create_token` signed; times are in seconds.
pub record Claims : Type 0 where
  pub sub : ℕ
  pub role : UserRole
  pub type : String
  pub jti : ℕ
  pub iat : ℕ
  pub exp : ℕ

pub record RevocationSettings : Type 0 where
  pub access_token_revocation_enabled : Bool
  pub access_token_expire_minutes : ℕ

abbrev unavailable : AppError
unavailable = authentication_error "Token revocation store is unavailable"

-- `int((expires_at - now).total_seconds())`: where the clock reads past a whole second, the part of a second
-- that is left is cut off.
abbrev pub seconds_left : Bool → ℕ → ℕ → ℕ
seconds_left past now exp = exp - now - (if past then 1 else 0)

module _ {R : Type 0} (redis : Redis R) (store : StoreSettings)
    (settings : RevocationSettings) where
  abbrev Checked : Type 0
  Checked = Store R → Result (Unit {0}) × Store R

  -- `now` is the whole seconds of the clock, and `past` whether it reads more than that.
  unfoldable pub revoke_claims : Bool → ℕ → Claims → Checked
  unfolding Store.is_available
  revoke_claims past now claims s =
      if not settings.access_token_revocation_enabled
      then (ok tt, s)
      else if not (Store.is_available redis store s)
      then (err unavailable, s)
      else if leb (seconds_left past now claims.exp) 0
      then (ok tt, s)
      else (
        ok tt,
        Store.set redis store now (revoked_access claims.jti) 1 (seconds_left past now claims.exp)
            s,
      )

  abbrev revoke_decoded : Bool → ℕ → Option Claims → Checked
  revoke_decoded past now none s = (ok tt, s)
  revoke_decoded past now (some claims) s =
      if not (str_eq claims.type "access") then (ok tt, s) else revoke_claims past now claims s

  -- `decode` is `decode_token` at the time of the call, `none` where it raises.
  unfoldable pub revoke_token : (decode : String → Option Claims) → Bool → ℕ → String → Checked
  unfolding revoke_claims
  revoke_token decode past now token s =
      if not settings.access_token_revocation_enabled
      then (ok tt, s)
      else revoke_decoded past now (decode token) s

  unfoldable pub revoke_all_for_user : ℕ → ℕ → Checked
  unfolding Store.is_available
  revoke_all_for_user now user_id s =
      if not settings.access_token_revocation_enabled
      then (ok tt, s)
      else if not (Store.is_available redis store s)
      then (err unavailable, s)
      else (
        ok tt,
        Store.set redis store now (revoked_all_access user_id) now
            (settings.access_token_expire_minutes * 60) s,
      )

  abbrev refuse_older : Claims → Option ℕ × Store R → Result (Unit {0}) × Store R
  refuse_older claims (none, s) = (ok tt, s)
  refuse_older claims (some revoked_at, s) =
      if leb claims.iat revoked_at
      then (err (authentication_error "Access token has been revoked due to security event"), s)
      else (ok tt, s)

  unfoldable pub ensure_not_revoked : ℕ → Claims → Checked
  unfolding Store.is_available
  ensure_not_revoked now claims s =
      if not settings.access_token_revocation_enabled
      then (ok tt, s)
      else if not (Store.is_available redis store s)
      then (err unavailable, s)
      else let (marked, s') = Store.get redis store now (revoked_access claims.jti) s in
        if is_some marked
        then (err (authentication_error "Access token has been revoked"), s')
        else refuse_older claims (Store.get redis store now (revoked_all_access claims.sub) s')
