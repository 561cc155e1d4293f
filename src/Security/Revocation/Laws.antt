-- ===== src/Security/Revocation/Laws.antt =====
-- `AccessTokenRevocationStore` over the memory fallback.
use student_knowledge_hub.Prelude.{
  ℕ, ◌+◌, ◌*◌, ◌≤◌, ◌<◌, max, Bool, true, false, none, some, ◌≡◌, arith,
}
use student_knowledge_hub.Service.{is_ok}
use student_knowledge_hub.Security.Keys.{
  revoked_access, revoked_all_access, put, key_eq, lookup-put, lookup-pop, key_eq_refl,
}
use student_knowledge_hub.Security.Store
use student_knowledge_hub.Security.Store.{Redis, Store, StoreSettings, allow_memory_fallback}
use student_knowledge_hub.Security.Revocation.{
  Claims, RevocationSettings, seconds_left, revoke_claims, revoke_all_for_user, ensure_not_revoked,
}

module _ {R : Type 0} (redis : Redis R) (store : StoreSettings)
    (settings : RevocationSettings) where
  pub record IsInMemory (s : Store R) : Type 0 where
    pub no_client : s.client ≡ none
    pub fallback : allow_memory_fallback store ≡ true
    pub enabled : settings.access_token_revocation_enabled ≡ true

  -- Over the memory fallback with revocation enabled: after the revocation of a token before the last second
  -- of its life, wherever in a second the clock stands, the token is refused until the last
  -- second before it expires.
  pub revoke_claims-refused :
      (past : Bool) (now later : ℕ) (claims : Claims) (s : Store R)
      → IsInMemory s
      → now + 1 < claims.exp
      → later + 1 < claims.exp
      → let (_, s') = revoke_claims redis store settings past now claims s in
        is_ok (ensure_not_revoked redis store settings later claims s').0 ≡ false
  unfolding revoke_claims ensure_not_revoked Store.get Store.set
  revoke_claims-refused past now later claims s m h h' = ground (
    arith,
    key_eq_refl (revoked_access claims.jti),
    lookup-put (revoked_access claims.jti) (revoked_access claims.jti)
        (1, some (now + max (seconds_left past now claims.exp) 1)) s.memory,
  )

  -- After the revocation of all tokens of a user, each one issued until then is refused, for as long
  -- as an access token lives.
  pub revoke_all_for_user-refused :
      (now later : ℕ) (claims : Claims) (s : Store R)
      → IsInMemory s
      → claims.iat ≤ now
      → later < now + settings.access_token_expire_minutes * 60
      → let (_, s') = revoke_all_for_user redis store settings now claims.sub s in
        is_ok (ensure_not_revoked redis store settings later claims s').0 ≡ false
  unfolding revoke_all_for_user ensure_not_revoked Store.get Store.set key_eq
  revoke_all_for_user-refused now later claims s m h h' = ground (
    arith,
    key_eq_refl (revoked_all_access claims.sub),
    lookup-put (revoked_all_access claims.sub) (revoked_all_access claims.sub)
        (now, some (now + max (settings.access_token_expire_minutes * 60) 1)) s.memory,
    lookup-pop (revoked_access claims.jti) (revoked_all_access claims.sub) (
        put (revoked_all_access claims.sub)
          (now, some (now + max (settings.access_token_expire_minutes * 60) 1)) s.memory),
  )
