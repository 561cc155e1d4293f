-- ===== src/Auth/Sessions/Rotation.antt =====
-- `AuthService.refresh`: one rotation of a refresh token.
use text.Mathlib.Text.{◌==◌ as str_eq}
use student_knowledge_hub.Prelude.{
  ℕ, ◌+◌, String, Bool, true, false, ◌&&◌, some, List, [], ◌∷◌, ◌++◌, ◌==◌, leb, any, is_none, find,
  get_row, put_row, update_where, Option-cases, Bool-cases, inl, inr, ◌≡◌, refl, ap, arith,
}
use student_knowledge_hub.Service.{AppError, Result, ok, err, authentication_error, request}
use student_knowledge_hub.Hub.Tables.{User, user_keyed}
use student_knowledge_hub.Security.Revocation.{Claims}
use student_knowledge_hub.Auth.Model.{
  RefreshTokenSession, AuthDb, session_keyed, Crypto, AuthSettings, refresh_claims,
}
use student_knowledge_hub.Auth.Sessions.{
  TokenPair, revoke_all, revoke_session_at, is_spent, rotated, issued_session, refresh,
}

-- The user has no session that is not revoked.
abbrev pub AllRevoked : ℕ → AuthDb → Type 0
AllRevoked user_id d =
    any (λ t. t.user_id == user_id && is_none t.revoked_at) d.refresh_sessions ≡ false

-- An error, after which every session of the user is revoked, durably.
abbrev pub FamilyRevoked : {E : Type 0} → ℕ → Result TokenPair × AuthDb × E → Type 0
FamilyRevoked user_id a = ((e : AppError) × (a.0 ≡ err e)) × AllRevoked user_id a.1

revoked_rows :
    (now user_id : ℕ) (ts : List RefreshTokenSession)
    → any
        (λ t. t.user_id == user_id && is_none t.revoked_at)
        (update_where
          (λ t. t.user_id == user_id && is_none t.revoked_at)
          (revoke_session_at now)
          ts)
      ≡ false
revoked_rows now user_id [] = refl
revoked_rows now user_id (t ∷ ts) = ground (arith, revoked_rows now user_id ts)

pub revoke_all-AllRevoked :
    (now user_id : ℕ) (d : AuthDb) → AllRevoked user_id (revoke_all now user_id d)
unfolding revoke_all
revoke_all-AllRevoked now user_id d = revoked_rows now user_id d.refresh_sessions

-- The session that is found by a test is replaced by what still meets the test.
pub find-put_row :
    (p : RefreshTokenSession → Bool) (t b : RefreshTokenSession) (ts us : List RefreshTokenSession)
    → find p ts ≡ some t
    → b.id ≡ t.id
    → p b ≡ true
    → find p (put_row b (ts ++ us)) ≡ some b
find-put_row p t b [] us h e pb = absurd (ground arith)
find-put_row p t b (x ∷ xs) us h e pb = ground (arith, find-put_row p t b xs us)

module _ {E : Type 0} (crypto : Crypto) (settings : AuthSettings) (now : ℕ) (token : String)
    (d : AuthDb) (out : E) where
  abbrev pub Accepted : Claims → User → RefreshTokenSession → Type 0
  Accepted claims user t =
      (crypto.decode now token ≡ some claims)
      × (str_eq claims.type "refresh" ≡ true)
      × (get_row claims.sub d.hub.users ≡ some user)
      × (user.is_active ≡ true)
      × (find (λ s. s.jti == claims.jti) d.refresh_sessions ≡ some t)
      × (str_eq t.token_hash (crypto.sha256_text token) ≡ true)

  abbrev answer : Result TokenPair × AuthDb × E
  answer = request (refresh {E = E} crypto settings now token) d out

  revoked_family :
      (message : String) (user_id : ℕ)
      → answer ≡ (err (authentication_error message), revoke_all now user_id d, out)
      → FamilyRevoked user_id answer
  revoked_family message user_id h = (
    (authentication_error message, ap (λ (a : Result TokenPair × AuthDb × E). a.0) h),
    rw (ap (λ (a : Result TokenPair × AuthDb × E). a.1) h) (revoke_all-AllRevoked now user_id d),
  )

  -- A token that is signed, of an active user and known by its session is refused if that session
  -- is spent, and then every session of the user is revoked, which lasts.
  pub refresh_spent :
      (claims : Claims) (user : User) (t : RefreshTokenSession)
      → Accepted claims user t
      → is_spent now t ≡ true
      → FamilyRevoked user.id (request (refresh {E = E} crypto settings now token) d out)
  unfolding refresh
  refresh_spent claims user t a spent = elim (Bool-cases (t.user_id == user.id)) [
    | inl own ↦
        revoked_family "Refresh token has already been used or revoked" user.id (ground arith)
    | inr other ↦ revoked_family "Invalid refresh token" user.id (ground arith)
  ]

  -- What a refresh that succeeds has found and what it leaves: the session of the token, of the
  -- user and not spent, is used, revoked and linked to its successor.
  pub refresh_sound :
      (pair : TokenPair) (d' : AuthDb) (out' : E)
      → request (refresh {E = E} crypto settings now token) d out ≡ (ok pair, d', out')
      → (claims : Claims) × (user : User) × (t : RefreshTokenSession) × (new : RefreshTokenSession)
        × Accepted claims user t
        × (t.user_id ≡ user.id)
        × (is_spent now t ≡ false)
        × (new.user_id ≡ user.id)
        × (is_spent now new ≡ leb new.expires_at now)
        × (d'.refresh_sessions ≡ put_row (rotated now new.jti t) (d.refresh_sessions ++ new ∷ []))
        × (d'.hub.users ≡ d.hub.users)
  unfolding refresh
  refresh_sound pair d' out' h = elim (Option-cases (crypto.decode now token)) [
    | inl bad ↦ absurd (ground arith)
    | inr (claims, decoded) ↦ elim (Option-cases (get_row claims.sub d.hub.users)) [
      | inl unknown ↦ absurd (ground arith)
      | inr (user, known) ↦
          elim (Option-cases (find (λ s. s.jti == claims.jti) d.refresh_sessions)) [
            | inl lost ↦ absurd (ground arith)
            | inr (t, found) ↦
                let fresh = crypto.encode (refresh_claims settings now user (d.hub.next_id + 1)) in
                elim (Option-cases (crypto.decode now fresh)) [
                  | inl bad ↦ absurd (ground arith)
                  | inr (new_claims, decoded') ↦
                      let new =
                        issued_session (d.hub.next_id + 2) user new_claims
                          (crypto.sha256_text fresh) in
                      (
                        claims,
                        user,
                        t,
                        new,
                        (decoded, ground arith, known, ground arith, found, ground arith),
                        ground arith,
                        ground arith,
                        refl,
                        refl,
                        ground arith,
                        ground arith,
                      )
                ]
          ]
    ]
  ]
