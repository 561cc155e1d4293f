-- ===== src/Auth/Sessions/Reuse.antt =====
-- `AuthService.refresh` twice with one token.
use student_knowledge_hub.Prelude.{
  ℕ, String, some, ◌==◌, get_row, find, find_sound, ◌≡◌, ◌∙◌, refl, [], ◌∷◌,
}
use student_knowledge_hub.Service.{ok, request}
use student_knowledge_hub.Hub.Tables.{User, user_keyed}
use student_knowledge_hub.Security.Revocation.{Claims}
use student_knowledge_hub.Auth.Model.{RefreshTokenSession, AuthDb, Crypto, AuthSettings}
use student_knowledge_hub.Auth.Sessions.{TokenPair, rotated, refresh}
use student_knowledge_hub.Auth.Sessions.Rotation.{
  FamilyRevoked, find-put_row, refresh_spent, refresh_sound,
}

module _ {E : Type 0} (crypto : Crypto) (settings : AuthSettings) (now later : ℕ) (token : String)
    (d : AuthDb) (out : E) where
  -- After a refresh that succeeded, the same token, as long as it still decodes to its claims, is
  -- refused, and all sessions of its user are revoked: the one that took its place too.
  pub refresh_again :
      (pair : TokenPair) (d' : AuthDb) (out' : E)
      → request (refresh {E = E} crypto settings now token) d out ≡ (ok pair, d', out')
      → crypto.decode later token ≡ crypto.decode now token
      → (user : User) × (claims : Claims) × (crypto.decode now token ≡ some claims)
        × (get_row claims.sub d.hub.users ≡ some user)
        × FamilyRevoked user.id (request (refresh {E = E} crypto settings later token) d' out')
  refresh_again pair d' out' h same =
      let (claims, user, t, new, accepted, own, unspent, new_own, new_unspent, sessions, users) =
        refresh_sound {E = E} crypto settings now token d out pair d' out' h in
      let used : RefreshTokenSession = rotated now new.jti t in
      let found : find (λ s. s.jti == claims.jti) d'.refresh_sessions ≡ some used = rw sessions (
        find-put_row (λ s. s.jti == claims.jti) t used d.refresh_sessions (new ∷ []) accepted.4 refl
          (find_sound (λ s. s.jti == claims.jti) d.refresh_sessions accepted.4)) in
      (
        user,
        claims,
        accepted.0,
        accepted.2,
        refresh_spent {E = E} crypto settings later token d' out' claims user used
            (same ∙ accepted.0, accepted.1, rw users accepted.2, accepted.3, found, accepted.5)
            refl,
      )
