-- ===== src/Auth/Accounts/Laws.antt =====
-- Password resets and verification emails (app/modules/auth/service.py).
use text.Mathlib.Text.{◌==◌ as str_eq}
use student_knowledge_hub.Prelude.{
  ℕ, ◌+◌, ◌*◌, String, true, false, Option, none, some, List, [], ◌∷◌, ◌++◌, ◌==◌, count, find,
  find_sound, get_row, put_row, get_row-put_row_self, find-put_row_self, Option-cases, inl, inr,
  ◌≡◌, ◌∙◌, refl, arith, count-append,
}
use student_knowledge_hub.Service.{ok, request, is_ok}
use student_knowledge_hub.Hub.Tables.{
  TelegramEventType, password_changed, Payload, User, Hub, audit, user_keyed,
}
use student_knowledge_hub.Hub.Events.{
  default_channel, list_admin_recipients, create_events, create_event, enqueue_user_security_events,
}
use student_knowledge_hub.Auth.Model.{
  OneTimeToken, AuthDb, token_keyed, Crypto, Revocations, AuthSettings, get_by_email,
}
use student_knowledge_hub.Auth.Outbox.{enqueue}
use student_knowledge_hub.Auth.Sessions.{revoke_all}
use student_knowledge_hub.Auth.Sessions.Rotation.{AllRevoked, revoke_all-AllRevoked}
use student_knowledge_hub.Auth.Accounts.{
  consume, is_live, consume_all, is_unusable, new_token, recorded, reset_rows, request_reset,
  forgot_password, reset_password, send_verification, resend_verification,
}

-- No live token is left by `consume_all`.
consumed_all :
    (user_id : ℕ) (ts : List OneTimeToken) → count (is_live user_id) (consume_all user_id ts) ≡ 0
unfolding consume_all
consumed_all user_id [] = refl
consumed_all user_id (t ∷ ts) = ground (arith, consumed_all user_id ts)

one_live :
    (user_id : ℕ) (ts : List OneTimeToken) (t : OneTimeToken)
    → is_live user_id t ≡ true
    → count (is_live user_id) (consume_all user_id ts ++ t ∷ []) ≡ 1
one_live user_id ts t h = ground (
  arith,
  consumed_all user_id ts,
  count-append (is_live user_id) (consume_all user_id ts) (t ∷ []),
)

enqueue-reset_tokens :
    (settings : AuthSettings) (now : ℕ) (email subject token : String) (d : AuthDb)
    → ((enqueue settings now email subject token d).reset_tokens ≡ d.reset_tokens)
      × ((enqueue settings now email subject token d).verification_tokens ≡ d.verification_tokens)
unfolding enqueue
enqueue-reset_tokens settings now email subject token d = (ground arith, ground arith)

module _ (crypto : Crypto) (settings : AuthSettings) (now : ℕ) (user : User) (d : AuthDb) where
  abbrev row : ℕ → OneTimeToken
  row =
      new_token (d.hub.next_id + 2) user.id (crypto.sha256_text (crypto.random_token d.hub.next_id))

  request_reset_live :
      count (is_live user.id) (request_reset crypto settings now user d).reset_tokens ≡ 1
  unfolding request_reset enqueue
  request_reset_live = ground (arith, one_live user.id d.reset_tokens (row (now + 3600)))

  send_verification_live :
      count (is_live user.id) (send_verification crypto settings now user d).verification_tokens ≡ 1
  unfolding send_verification enqueue
  send_verification_live = ground (
    arith,
    one_live user.id d.verification_tokens
        (row (now + settings.email_verification_token_expire_hours * 3600)),
  )

module _ {E : Type 0} (crypto : Crypto) (settings : AuthSettings) (now : ℕ) (d : AuthDb)
    (out : E) where
  -- After a request for a password reset by a user that exists, exactly one of the user's reset
  -- tokens is live, durably.
  pub forgot_password_live :
      (email : String) (user : User)
      → get_by_email email d ≡ some user
      → count
          (is_live user.id)
          (request (forgot_password {E = E} crypto settings now email) d out).1.reset_tokens
        ≡ 1
  unfolding forgot_password
  forgot_password_live email user h = ground (arith, request_reset_live crypto settings now user d)

  -- After a new verification email for a user that exists and is not verified, exactly one of the
  -- user's verification tokens is live, durably.
  pub resend_verification_live :
      (email : String) (user : User)
      → get_by_email email d ≡ some user
      → user.is_verified ≡ false
      → count
          (is_live user.id)
          (request
            (resend_verification {E = E} crypto settings now email)
            d
            out).1.verification_tokens
        ≡ 1
  unfolding resend_verification
  resend_verification_live email user h v =
      ground (arith, send_verification_live crypto settings now user d)

create_events-users :
    (type : TelegramEventType) (entity_type : Option String) (entity_id : Option ℕ)
    (payload : Payload) (recipients : List User) (h : Hub)
    → (create_events type entity_type entity_id payload recipients h).users ≡ h.users
unfolding create_events create_event
create_events-users type entity_type entity_id payload [] h = refl
create_events-users type entity_type entity_id payload (r ∷ rs) h =
    let next = (create_event type entity_type entity_id r payload default_channel h).1 in
    let same : next.users ≡ h.users = ground arith in
    create_events-users type entity_type entity_id payload rs next ∙ same

recorded-users :
    (action : String) (type : TelegramEventType) (user : User) (entity_id : ℕ) (h : Hub)
    → (recorded action type user entity_id h).users ≡ h.users
unfolding enqueue_user_security_events audit
recorded-users action type user entity_id h =
    let h' = audit action "user" (some user) (some user.id) none h in
    create_events-users type (some "user") (some entity_id) (Payload.of_user user.id user.email)
      (list_admin_recipients h') h'

module _ {E : Type 0} (crypto : Crypto) (settings : AuthSettings) (revocations : Revocations E)
    (now : ℕ) (token new_password : String) (d : AuthDb) (out : E) where
  abbrev final : OneTimeToken → User → AuthDb
  final t user =
      let user' = record user { hashed_password = crypto.hash_password new_password } in
      let changed = revoke_all now user.id (reset_rows user' t d) in
      record changed {
        hub = recorded "password_reset_completed" password_changed user' t.id changed.hub;
      }

  final-users :
      (t : OneTimeToken) (user : User)
      → get_row t.user_id d.hub.users ≡ some user
      → get_row user.id (final t user).hub.users
        ≡ some (record user { hashed_password = crypto.hash_password new_password })
  unfolding revoke_all
  final-users t user known =
      let user' = record user { hashed_password = crypto.hash_password new_password } in
      let own : user.id == t.user_id ≡ true =
        find_sound (λ u. u.id == t.user_id) d.hub.users known in
      let same : t.user_id ≡ user.id = ground (arith, own) in
      let users =
        recorded-users "password_reset_completed" password_changed user' t.id
          (revoke_all now user.id (reset_rows user' t d)).hub in
      rw users (get_row-put_row_self user.id user user' d.hub.users (rw same at known) refl)

  abbrev Named : OneTimeToken → Type 0
  Named t = find (λ x. str_eq x.token (crypto.sha256_text token)) d.reset_tokens ≡ some t

  -- A reset that succeeds has found an unconsumed, unexpired token of an existing user; afterwards,
  -- durably, the user has the new password's hash, the token is consumed and all refresh sessions of
  -- the user are revoked.
  pub reset_password_sound :
      (d' : AuthDb) (out' : E)
      → request (reset_password {E = E} crypto settings revocations now token new_password) d out
        ≡ (ok tt, d', out')
      → (t : OneTimeToken) × (user : User) × Named t
        × (is_unusable now t ≡ false)
        × (get_row t.user_id d.hub.users ≡ some user)
        × (get_row user.id d'.hub.users
            ≡ some (record user { hashed_password = crypto.hash_password new_password }))
        × (d'.reset_tokens ≡ put_row (consume t) d.reset_tokens)
        × AllRevoked user.id d'
  unfolding reset_password revoke_all
  reset_password_sound d' out' h =
      elim (Option-cases (find (λ x. str_eq x.token (crypto.sha256_text token)) d.reset_tokens)) [
        | inl lost ↦ absurd (ground arith)
        | inr (t, found) ↦ elim (Option-cases (get_row t.user_id d.hub.users)) [
          | inl unknown ↦ absurd (ground arith)
          | inr (user, known) ↦
              let after : d' ≡ final t user = ground arith in
              (
                t,
                user,
                found,
                ground arith,
                known,
                rw after (final-users t user known),
                rw after refl,
                rw after (
                    revoke_all-AllRevoked now user.id (
                      reset_rows
                        (record user { hashed_password = crypto.hash_password new_password }) t d)),
              )
        ]
      ]

  -- The token of a reset that succeeded is refused from then on, whatever password comes with it, and
  -- neither the database nor the store of revocations changes.
  pub reset_password_again :
      (later : ℕ) (other_password : String) (d' : AuthDb) (out' : E)
      → request (reset_password {E = E} crypto settings revocations now token new_password) d out
        ≡ (ok tt, d', out')
      → let (r, d'', out'') =
          request
            (reset_password {E = E} crypto settings revocations later token other_password)
            d'
            out' in
        (is_ok r ≡ false) × (d'' ≡ d') × (out'' ≡ out')
  unfolding reset_password
  reset_password_again later other_password d' out' h =
      let (t, user, found, unspent, known, users, tokens, all) = reset_password_sound d' out' h in
      let again : find (λ x. str_eq x.token (crypto.sha256_text token)) d'.reset_tokens
          ≡ some (consume t) =
        rw tokens (
          find-put_row_self (λ x. str_eq x.token (crypto.sha256_text token)) t (consume t)
            d.reset_tokens found refl
            (find_sound (λ x. str_eq x.token (crypto.sha256_text token)) d.reset_tokens found)) in
      (ground (arith, again), ground (arith, again), ground (arith, again))
