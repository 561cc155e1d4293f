-- ===== src/Auth/Accounts.antt =====
-- The methods of `AuthService` over single-use tokens: the password reset and the verification of an
-- email address (app/modules/auth/service.py). A token is stored as its hash.
pub mod Laws
use text.Mathlib.Text.{◌==◌ as str_eq}
use student_knowledge_hub.Prelude.{
  ℕ, ◌+◌, ◌*◌, String, Bool, true, false, ◌&&◌, ◌||◌, Option, none, some, List, [], ◌∷◌, ◌++◌, not,
  ◌==◌, ltb, find, get_row, put_row, update_where, if◌then◌else◌,
}
use student_knowledge_hub.Service.{
  Handler, authentication_error, resource_not_found, pure, raise, skip, gets, or_raise, raise_if,
  modify, commit, ◌>>=◌, ◌>>◌,
}
use student_knowledge_hub.Hub.Tables.{
  TelegramEventType, password_reset_requested, password_changed, email_verified,
  email_verification_resent, User, Hub, audit, user_keyed,
}
use student_knowledge_hub.Hub.Events.{enqueue_user_security_events}
use student_knowledge_hub.Auth.Model.{
  OneTimeToken, AuthDb, token_keyed, Crypto, Revocations, AuthSettings, outside, get_by_email,
  on_hub,
}
use student_knowledge_hub.Auth.Outbox.{enqueue}
use student_knowledge_hub.Auth.Sessions.{revoke_all}

abbrev pub consume : OneTimeToken → OneTimeToken
consume t = record t { consumed = true }

abbrev pub is_live : ℕ → OneTimeToken → Bool
is_live user_id t = t.user_id == user_id && not t.consumed

-- `_consume_password_reset_tokens` and `_consume_email_verification_tokens`, on their table.
unfoldable pub consume_all : ℕ → List OneTimeToken → List OneTimeToken
consume_all user_id ts = update_where (is_live user_id) consume ts

-- The lookup of a presented token, with the check that both handlers make of it.
abbrev pub is_unusable : ℕ → OneTimeToken → Bool
is_unusable now t = t.consumed || ltb t.expires_at now

abbrev pub new_token : ℕ → ℕ → String → ℕ → OneTimeToken
new_token id user_id token expires_at = record {
  id = id;
  user_id = user_id;
  token = token;
  expires_at = expires_at;
  consumed = false;
}

-- An audit entry of the user about itself, and the event for the administrators.
abbrev pub recorded : String → TelegramEventType → User → ℕ → Hub → Hub
recorded action type user entity_id h =
    enqueue_user_security_events type user entity_id
      (audit action "user" (some user) (some user.id) none h)

-- The rows that the two handlers change: the user and its token.
abbrev pub reset_rows : User → OneTimeToken → AuthDb → AuthDb
reset_rows user t d = record d {
  hub = record d.hub { users = put_row user d.hub.users };
  reset_tokens = put_row (consume t) d.reset_tokens;
}

abbrev pub verified_rows : User → OneTimeToken → AuthDb → AuthDb
verified_rows user t d = record d {
  hub = record d.hub { users = put_row user d.hub.users };
  verification_tokens = put_row (consume t) d.verification_tokens;
}

module _ (crypto : Crypto) (settings : AuthSettings) where
  -- The request of a reset by a user that exists. Three ids are taken: two for the token's text and
  -- one for its row.
  unfoldable pub request_reset : ℕ → User → AuthDb → AuthDb
  request_reset now user d =
      let token = crypto.random_token d.hub.next_id in
      let row = new_token (d.hub.next_id + 2) user.id (crypto.sha256_text token) (now + 3600) in
      let added = record d {
        reset_tokens = consume_all user.id d.reset_tokens ++ row ∷ [];
        hub = record d.hub { next_id = d.hub.next_id + 3 };
      } in
      let queued =
        enqueue settings now user.email "Reset your Student Knowledge Hub password" token added in
      record queued {
        hub = recorded "password_reset_requested" password_reset_requested user row.id queued.hub;
      }

  -- `_create_email_verification_token` and `_queue_verification_email`.
  unfoldable pub send_verification : ℕ → User → AuthDb → AuthDb
  send_verification now user d =
      let token = crypto.random_token d.hub.next_id in
      let row =
        new_token (d.hub.next_id + 2) user.id (crypto.sha256_text token)
          (now + settings.email_verification_token_expire_hours * 3600) in
      let added = record d {
        verification_tokens = consume_all user.id d.verification_tokens ++ row ∷ [];
        hub = record d.hub { next_id = d.hub.next_id + 3 };
      } in
      enqueue settings now user.email "Verify your Student Knowledge Hub email" token added

module _ {E : Type 0} (crypto : Crypto) (settings : AuthSettings) where
  abbrev forgotten : ℕ → Option User → Handler AuthDb E (Unit {0})
  forgotten now none = skip
  forgotten now (some user) = do modify (request_reset crypto settings now user); commit

  unfoldable pub forgot_password : ℕ → String → Handler AuthDb E (Unit {0})
  forgot_password now email = do found ← gets (get_by_email email); forgotten now found

  unfoldable pub reset_password : Revocations E → ℕ → String → String → Handler AuthDb E (Unit {0})
  reset_password revocations now token new_password = do
    found ← gets (λ d. find (λ t. str_eq t.token (crypto.sha256_text token)) d.reset_tokens)
    t ←
        or_raise found
          (authentication_error "Parolni tiklash tokeni noto'g'ri yoki muddati tugagan")
    raise_if (is_unusable now t)
        (authentication_error "Parolni tiklash tokeni noto'g'ri yoki muddati tugagan")
    known ← gets (λ d. get_row t.user_id d.hub.users)
    user ← or_raise known (resource_not_found "User not found")
    let user' = record user { hashed_password = crypto.hash_password new_password }
    modify (reset_rows user' t)
    modify (revoke_all now user.id)
    outside (revocations.revoke_all_for_user now user.id)
    on_hub (recorded "password_reset_completed" password_changed user' t.id)
    commit

  unfoldable pub verify_email : ℕ → String → Handler AuthDb E (Unit {0})
  verify_email now token = do
    found ← gets (λ d. find (λ t. str_eq t.token (crypto.sha256_text token)) d.verification_tokens)
    t ← or_raise found (authentication_error "Tasdiqlash tokeni noto'g'ri yoki muddati tugagan")
    raise_if (is_unusable now t)
        (authentication_error "Tasdiqlash tokeni noto'g'ri yoki muddati tugagan")
    known ← gets (λ d. get_row t.user_id d.hub.users)
    user ← or_raise known (resource_not_found "User not found")
    let user' = record user { is_verified = true }
    modify (verified_rows user' t)
    on_hub (recorded "email_verified" email_verified user' user.id)
    commit

  abbrev resent : ℕ → Option User → Handler AuthDb E (Unit {0})
  resent now none = skip
  resent now (some user) = if user.is_verified then skip else do
    modify (send_verification crypto settings now user)
    on_hub (recorded "email_verification_requested" email_verification_resent user user.id)
    commit

  unfoldable pub resend_verification : ℕ → String → Handler AuthDb E (Unit {0})
  resend_verification now email = do found ← gets (get_by_email email); resent now found
