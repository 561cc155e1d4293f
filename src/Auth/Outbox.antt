-- ===== src/Auth/Outbox.antt =====
-- app/modules/auth/email_outbox.py: the queue of emails and its worker.
pub mod Laws
pub mod Batch
pub mod Rounds
use student_knowledge_hub.Prelude.{
  ℕ, ◌+◌, ◌-◌, ◌*◌, ◌^◌, String, Bool, true, false, ◌&&◌, ◌||◌, Option, none, some, List, [], ◌∷◌,
  ◌++◌, not, leb, ltb, filter, take, length, put_row, if◌then◌else◌,
}
use student_knowledge_hub.Auth.Model.{
  EmailStatus, email_pending, email_retry, email_sent, email_failed, EmailOutbox, AuthDb,
  AuthSettings, email_keyed,
}

-- `EmailOutboxService.enqueue`, of a message whose body is a link with the token.
unfoldable pub enqueue : AuthSettings → ℕ → String → String → String → AuthDb → AuthDb
enqueue settings now recipient_email subject link_token d =
    if not settings.mail_enabled then d else record d {
      email_outbox =
          d.email_outbox
          ++ record {
            id = d.hub.next_id;
            recipient_email = recipient_email;
            subject = subject;
            link_token = link_token;
            status = email_pending;
            attempt_count = 0;
            max_attempts = settings.email_outbox_max_attempts;
            next_attempt_at = now;
            last_attempt_at = none;
            sent_at = none;
            last_error = none;
          }
            ∷ [];
      hub = record d.hub { next_id = d.hub.next_id + 1 };
    }

-- `status.in_([PENDING, RETRY])`
abbrev pub is_open : EmailStatus → Bool
is_open email_pending = true
is_open email_retry = true
is_open _ = false

abbrev pub is_failed : EmailStatus → Bool
is_failed email_failed = true
is_failed _ = false

unfoldable pub is_due : ℕ → EmailOutbox → Bool
is_due now m = is_open m.status && ltb m.attempt_count m.max_attempts && leb m.next_attempt_at now

-- `order_by(next_attempt_at, created_at)`: a stable sort of the rows, which stand as created.
unfoldable pub insert_due : EmailOutbox → List EmailOutbox → List EmailOutbox
insert_due m [] = m ∷ []
insert_due m (x ∷ xs) =
    if leb m.next_attempt_at x.next_attempt_at then m ∷ x ∷ xs else x ∷ insert_due m xs

unfoldable pub sort_due : List EmailOutbox → List EmailOutbox
unfolding insert_due
sort_due [] = []
sort_due (m ∷ ms) = insert_due m (sort_due ms)

-- What comes of a call of `send_email`: it returns, also where mail is disabled and nothing is sent, or
-- raises.
pub data Delivery : Type 0 where
  returned : Delivery
  raised : String → Delivery

-- `max(attempt_count - 1, 0)` is the subtraction of ℕ.
abbrev pub retry_delay : ℕ → ℕ → ℕ
retry_delay base_seconds attempts = base_seconds * 2 ^ (attempts - 1)

abbrev failed_attempt : ℕ → ℕ → String → EmailOutbox → EmailOutbox
failed_attempt base_seconds now error m =
    if leb m.max_attempts m.attempt_count
    then record m { status = email_failed; last_error = some error }
    else record m {
      status = email_retry;
      next_attempt_at = now + retry_delay base_seconds m.attempt_count;
      last_error = some error;
    }

abbrev after_attempt : ℕ → ℕ → Delivery → EmailOutbox → EmailOutbox
after_attempt base_seconds now returned m = record m {
  status = email_sent;
  sent_at = some now;
  last_error = none;
}
after_attempt base_seconds now (raised error) m = failed_attempt base_seconds now error m

-- `_send_one`, with the outcome of its call.
unfoldable pub send_one : ℕ → ℕ → Delivery → EmailOutbox → EmailOutbox
send_one base_seconds now delivery m =
    after_attempt base_seconds now delivery
      (record m { attempt_count = m.attempt_count + 1; last_attempt_at = some now })

pub record Summary : Type 0 where
  pub processed : ℕ
  pub sent : ℕ
  pub retried : ℕ
  pub failed : ℕ

abbrev pub count_outcome : Delivery → EmailOutbox → Summary → Summary
count_outcome returned m c = record c { sent = c.sent + 1 }
count_outcome (raised e) m c =
    if is_failed m.status
    then record c { failed = c.failed + 1 }
    else record c { retried = c.retried + 1 }

-- The loop over the messages; `deliver` is what becomes of each call of `send_email`.
unfoldable pub send_all :
    ℕ
    → ℕ
    → (EmailOutbox → Delivery)
    → List EmailOutbox
    → Summary
    → List EmailOutbox
    → Summary × List EmailOutbox
unfolding send_one
send_all base_seconds now deliver [] c table = (c, table)
send_all base_seconds now deliver (m ∷ ms) c table =
    let m' = send_one base_seconds now (deliver m) m in
    send_all base_seconds now deliver ms (count_outcome (deliver m) m' c) (put_row m' table)

abbrev pub none_yet : ℕ → Summary
none_yet processed = record { processed = processed; sent = 0; retried = 0; failed = 0 }

abbrev pub due_messages : ℕ → ℕ → List EmailOutbox → List EmailOutbox
due_messages batch_size now table = take batch_size (sort_due (filter (is_due now) table))

unfoldable pub process_due : ℕ → ℕ → ℕ → (EmailOutbox → Delivery) → AuthDb → Summary × AuthDb
unfolding is_due sort_due send_all
process_due base_seconds batch_size now deliver d =
    let messages = due_messages batch_size now d.email_outbox in
    let (c, table) =
      send_all base_seconds now deliver messages (none_yet (length messages)) d.email_outbox in
    (c, record d { email_outbox = table })

-- A round of the worker.
pub record Round : Type 0 where
  pub now : ℕ
  pub batch_size : ℕ
  pub deliver : EmailOutbox → Delivery

abbrev pub after_round : ℕ → Round → AuthDb → AuthDb
after_round base_seconds r d = (process_due base_seconds r.batch_size r.now r.deliver d).1

-- The worker's rounds, one after the other.
unfoldable pub after_rounds : ℕ → List Round → AuthDb → AuthDb
after_rounds base_seconds [] d = d
after_rounds base_seconds (r ∷ rs) d = after_rounds base_seconds rs (after_round base_seconds r d)
