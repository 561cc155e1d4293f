-- ===== src/Tests/Auth.antt =====
-- Sessions, resets and the queue of emails of the sample's users.
use text.Mathlib.Text.{◌==◌ as str_eq}
use student_knowledge_hub.Prelude.{
  ◌+◌, ◌-◌, ◌≤◌, leb, count, true, false, none, some, [], ◌∷◌, ◌++◌, arith, ◌≡◌, ◌⊎◌, refl, All,
  length, if◌then◌else◌, get_row, put_row, find,
}
use student_knowledge_hub.Service.{Result, ok, is_ok, request}
use student_knowledge_hub.Hub.Tables.{User, student, user_keyed}
use student_knowledge_hub.Security.Revocation.{Claims}
use student_knowledge_hub.Auth.Model.{
  RefreshTokenSession, OneTimeToken, email_pending, email_sent, EmailOutbox, AuthDb, session_keyed,
  token_keyed, email_keyed, Crypto, Revocations, AuthSettings,
}
use student_knowledge_hub.Auth.Sessions.{TokenPair, is_spent, rotated, refresh}
use student_knowledge_hub.Auth.Sessions.Rotation.{
  FamilyRevoked, AllRevoked, Accepted, refresh_spent, refresh_sound,
}
use student_knowledge_hub.Auth.Sessions.Reuse.{refresh_again}
use student_knowledge_hub.Auth.Accounts.{
  is_live, is_unusable, consume, forgot_password, reset_password, resend_verification,
}
use student_knowledge_hub.Auth.Accounts.Laws.{
  forgot_password_live, resend_verification_live, reset_password_sound, reset_password_again,
}
use student_knowledge_hub.Admin.Users.Count.{IsUniqueKey}
use student_knowledge_hub.Auth.Outbox.{
  Delivery, returned, raised, is_due, insert_due, sort_due, due_messages, send_one, process_due,
  Round, after_round, after_rounds,
}
use student_knowledge_hub.Auth.Outbox.Batch.{calls_in}
use student_knowledge_hub.Auth.Outbox.Rounds.{calls, process_due_row, calls-le, sent_once}
use student_knowledge_hub.Auth.Outbox.Laws.{
  IsBounded, delivered, put_off, given_up, process_due_counts, process_due-IsBounded,
}
use student_knowledge_hub.Tests.Sample.{author, head_admin, hub}

abbrev old_claims : Claims
old_claims = record { sub = 2; role = student; type = "refresh"; jti = 5; iat = 0; exp = 1000 }

abbrev new_claims : Claims
new_claims = record { sub = 2; role = student; type = "refresh"; jti = 101; iat = 50; exp = 2000 }

-- Of two refresh tokens, the one presented and the one issued in its place.
abbrev crypto : Crypto
crypto = record {
  encode = λ c. "second";
  decode = λ now t.
      if str_eq t "first"
      then some old_claims
      else if str_eq t "second"
      then some new_claims
      else none;
  sha256_text = λ t. t;
  hash_password = λ p. "new-hash";
  verify_password = λ p h. str_eq p h;
  random_token = λ n. "fresh";
}

abbrev settings : AuthSettings
settings = record {
  access_token_expire_minutes = 15;
  refresh_token_expire_days = 7;
  email_verification_token_expire_hours = 24;
  mail_enabled = true;
  email_outbox_max_attempts = 5;
}

abbrev revocations : Revocations (Unit {0})
revocations = record {
  revoke_token = λ now token e. (ok tt, e);
  revoke_all_for_user = λ now user_id e. (ok tt, e);
}

abbrev first_session : RefreshTokenSession
first_session = record {
  id = 70;
  user_id = 2;
  jti = 5;
  token_hash = "first";
  expires_at = 1000;
  used_at = none;
  revoked_at = none;
  replaced_by_jti = none;
}

abbrev reset_token : OneTimeToken
reset_token = record { id = 80; user_id = 2; token = "reset"; expires_at = 900; consumed = false }

abbrev message : EmailOutbox
message = record {
  id = 90;
  recipient_email = "a@example.uz";
  subject = "Reset";
  link_token = "reset";
  status = email_pending;
  attempt_count = 0;
  max_attempts = 5;
  next_attempt_at = 10;
  last_attempt_at = none;
  sent_at = none;
  last_error = none;
}

abbrev db_of : RefreshTokenSession → AuthDb
db_of t = record {
  hub = hub;
  refresh_sessions = t ∷ [];
  reset_tokens = reset_token ∷ [];
  verification_tokens = [];
  email_outbox = message ∷ [];
}

abbrev db : AuthDb
db = db_of first_session

abbrev refreshed : Result TokenPair × AuthDb × Unit {0}
refreshed = request (refresh crypto settings 50 "first") db tt

abbrev pair : TokenPair
pair = record { access_token = "second"; refresh_token = "second"; role = student }

refresh_again_example :
    (user : User) × (claims : Claims) × (crypto.decode 50 "first" ≡ some claims)
    × (get_row claims.sub db.hub.users ≡ some user)
    × FamilyRevoked user.id (request (refresh crypto settings 60 "first") refreshed.1 refreshed.2)
unfolding refresh
refresh_again_example =
    refresh_again crypto settings 50 60 "first" db tt pair refreshed.1 refreshed.2 refl refl

refresh-sound_example :
    (claims : Claims) × (user : User) × (t : RefreshTokenSession) × (new : RefreshTokenSession)
    × Accepted {E = Unit {0}} crypto settings 50 "first" db tt claims user t
    × (t.user_id ≡ user.id)
    × (is_spent 50 t ≡ false)
    × (new.user_id ≡ user.id)
    × (is_spent 50 new ≡ leb new.expires_at 50)
    × (refreshed.1.refresh_sessions
        ≡ put_row (rotated 50 new.jti t) (db.refresh_sessions ++ new ∷ []))
    × (refreshed.1.hub.users ≡ db.hub.users)
unfolding refresh
refresh-sound_example =
    refresh_sound crypto settings 50 "first" db tt pair refreshed.1 refreshed.2 refl

abbrev used_session : RefreshTokenSession
used_session = rotated 40 101 first_session

refresh_spent_example :
    FamilyRevoked 2
      (request (refresh {E = Unit {0}} crypto settings 50 "first") (db_of used_session) tt)
refresh_spent_example =
    refresh_spent crypto settings 50 "first" (db_of used_session) tt old_claims author used_session
      (refl, refl, refl, refl, refl, refl) refl

abbrev reset : Result (Unit {0}) × AuthDb × Unit {0}
reset = request (reset_password crypto settings revocations 50 "reset" "secret") db tt

reset_password-sound_example :
    (t : OneTimeToken) × (user : User) × (find (λ x. str_eq x.token "reset") db.reset_tokens
      ≡ some t)
    × (is_unusable 50 t ≡ false)
    × (get_row t.user_id db.hub.users ≡ some user)
    × (get_row user.id reset.1.hub.users ≡ some (record user { hashed_password = "new-hash" }))
    × (reset.1.reset_tokens ≡ put_row (consume t) db.reset_tokens)
    × AllRevoked user.id reset.1
unfolding reset_password
reset_password-sound_example =
    reset_password_sound crypto settings revocations 50 "reset" "secret" db tt reset.1 reset.2 refl

reset_password_again_example :
    let (r, d'', out'') =
      request (reset_password crypto settings revocations 60 "reset" "other") reset.1 reset.2 in
    (is_ok r ≡ false) × (d'' ≡ reset.1) × (out'' ≡ reset.2)
unfolding reset_password
reset_password_again_example =
    reset_password_again crypto settings revocations 50 "reset" "secret" db tt 60 "other" reset.1
      reset.2 refl

forgot_password_live_example :
    count
      (is_live 1)
      (request
        (forgot_password {E = Unit {0}} crypto settings 50 "a@example.uz")
        db
        tt).1.reset_tokens
    ≡ 1
forgot_password_live_example =
    forgot_password_live crypto settings 50 db tt "a@example.uz" head_admin refl

resend_verification_live_example :
    count
      (is_live 1)
      (request
        (resend_verification {E = Unit {0}} crypto settings 50 "a@example.uz")
        db
        tt).1.verification_tokens
    ≡ 1
resend_verification_live_example =
    resend_verification_live crypto settings 50 db tt "a@example.uz" head_admin refl refl

abbrev timeout : EmailOutbox → Delivery
timeout m = raised "timeout"

process_due_counts_example :
    let (c, _) = process_due 30 10 50 timeout db in
    let messages = due_messages 10 50 db.email_outbox in
    (c.processed ≡ length messages)
    × (c.processed ≤ 10)
    × (c.sent ≡ count (delivered 30 50 timeout) messages)
    × (c.retried ≡ count (put_off 30 50 timeout) messages)
    × (c.failed ≡ count (given_up 30 50 timeout) messages)
process_due_counts_example = process_due_counts 30 50 timeout 10 db

process_due-IsBounded_example :
    All IsBounded (process_due 30 10 50 (λ m. raised "timeout") db).1.email_outbox
process_due-IsBounded_example =
    process_due-IsBounded 30 10 50 (λ m. raised "timeout") db
      (record { attempts = omega arith; exhausted = refl }, tt)

-- A call that raises, and one that returns after the delay.
abbrev first_round : Round
first_round = record { now = 20; batch_size = 10; deliver = timeout }

abbrev second_round : Round
second_round = record { now = 90; batch_size = 10; deliver = λ m. returned }

db-IsUniqueKey : IsUniqueKey db.email_outbox
db-IsUniqueKey i = ground arith

process_due_row_example :
    ((calls_in 90 first_round db ≡ 0)
      × (get_row 90 (after_round 30 first_round db).email_outbox ≡ some message))
    ⊎ ((calls_in 90 first_round db ≡ 1)
        × (is_due 20 message ≡ true)
        × (get_row 90 (after_round 30 first_round db).email_outbox
            ≡ some (send_one 30 20 (raised "timeout") message)))
process_due_row_example = process_due_row 30 90 first_round message db db-IsUniqueKey refl

calls-le_example :
    (m' : EmailOutbox) × (get_row 90
        (after_rounds 30 (first_round ∷ second_round ∷ second_round ∷ []) db).email_outbox
      ≡ some m')
    × (m'.attempt_count ≡ 0 + calls 30 90 (first_round ∷ second_round ∷ second_round ∷ []) db)
    × (m'.max_attempts ≡ 5)
    × (calls 30 90 (first_round ∷ second_round ∷ second_round ∷ []) db ≤ 5 - 0)
calls-le_example =
    calls-le 30 90 (first_round ∷ second_round ∷ second_round ∷ []) message db db-IsUniqueKey refl

called : calls_in 90 second_round db ≡ 1
unfolding is_due insert_due sort_due
called = refl

sent_once_example :
    (get_row 90 (after_rounds 30 (second_round ∷ first_round ∷ []) db).email_outbox
      ≡ some (record message {
        attempt_count = 0 + 1;
        last_attempt_at = some 90;
        status = email_sent;
        sent_at = some 90;
        last_error = none;
      }))
    × (calls 30 90 (second_round ∷ first_round ∷ []) db ≡ 1)
sent_once_example =
    sent_once 30 90 second_round (first_round ∷ []) message db db-IsUniqueKey refl called refl
