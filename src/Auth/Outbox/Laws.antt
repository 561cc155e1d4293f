-- ===== src/Auth/Outbox/Laws.antt =====
-- The queue of emails (app/modules/auth/email_outbox.py) over rounds of its worker.
use student_knowledge_hub.Prelude.{
  ℕ, ◌+◌, ◌≤◌, ◌<◌, true, false, ◌||◌, ◌==◌, List, [], ◌∷◌, leb, filter, length, put_row, not, All,
  All-take, All-update_where, if◌then◌else◌, ◌≡◌, ◌∙◌, refl, arith, length-take-le, count, Bool,
  ◌&&◌, Bool-cases, inl, inr,
}
use student_knowledge_hub.Auth.Model.{EmailOutbox, AuthDb, email_keyed}
use student_knowledge_hub.Auth.Outbox.{
  is_failed, is_due, insert_due, sort_due, Delivery, returned, raised, send_one, Summary,
  count_outcome, send_all, none_yet, due_messages, process_due,
}

abbrev pub is_returned : Delivery → Bool
is_returned returned = true
is_returned (raised error) = false

-- The attempt that is made is the last one the message may have.
abbrev pub is_last : EmailOutbox → Bool
is_last m = leb m.max_attempts (m.attempt_count + 1)

module _ (base_seconds now : ℕ) (deliver : EmailOutbox → Delivery) where
  -- The messages whose call returns, and those whose call raises with attempts left, or with none.
  abbrev pub delivered : EmailOutbox → Bool
  delivered m = is_returned (deliver m)

  abbrev pub put_off : EmailOutbox → Bool
  put_off m = not (is_returned (deliver m)) && not (is_last m)

  abbrev pub given_up : EmailOutbox → Bool
  given_up m = not (is_returned (deliver m)) && is_last m

  counted_one :
      (m : EmailOutbox) (c : Summary)
      → let c' = count_outcome (deliver m) (send_one base_seconds now (deliver m) m) c in
        (c'.processed ≡ c.processed)
        × (c'.sent ≡ c.sent + (if delivered m then 1 else 0))
        × (c'.retried ≡ c.retried + (if put_off m then 1 else 0))
        × (c'.failed ≡ c.failed + (if given_up m then 1 else 0))
  unfolding send_one
  counted_one m c = (ground arith, ground arith, ground arith, ground arith)

  send_all_counts :
      (ms : List EmailOutbox) (c : Summary) (table : List EmailOutbox)
      → let c' = (send_all base_seconds now deliver ms c table).0 in
        (c'.processed ≡ c.processed)
        × (c'.sent ≡ c.sent + count delivered ms)
        × (c'.retried ≡ c.retried + count put_off ms)
        × (c'.failed ≡ c.failed + count given_up ms)
  unfolding send_all
  send_all_counts [] c table = (refl, omega arith, omega arith, omega arith)
  send_all_counts (m ∷ ms) c table =
      let m' = send_one base_seconds now (deliver m) m in
      let c' = count_outcome (deliver m) m' c in
      let rest = send_all_counts ms c' (put_row m' table) in
      let one = counted_one m c in
      (
        rest.0 ∙ one.0,
        ground (arith, rest.1, one.1),
        ground (arith, rest.2, one.2),
        ground (arith, rest.3, one.3),
      )

  -- Of the messages of a round's batch, which is no larger than its limit, all are counted as processed, those
  -- whose call of `send_email` returns as sent, those whose call raises as put off where they have another
  -- attempt and as failed where this was the last.
  pub process_due_counts :
      (batch_size : ℕ) (d : AuthDb)
      → let (c, _) = process_due base_seconds batch_size now deliver d in
        let messages = due_messages batch_size now d.email_outbox in
        (c.processed ≡ length messages)
        × (c.processed ≤ batch_size)
        × (c.sent ≡ count delivered messages)
        × (c.retried ≡ count put_off messages)
        × (c.failed ≡ count given_up messages)
  unfolding process_due
  process_due_counts batch_size d =
      let messages = due_messages batch_size now d.email_outbox in
      let counts = send_all_counts messages (none_yet (length messages)) d.email_outbox in
      (
        counts.0,
        omega (
          arith,
          counts.0,
          length-take-le batch_size (sort_due (filter (is_due now) d.email_outbox)),
        ),
        omega (arith, counts.1),
        omega (arith, counts.2),
        omega (arith, counts.3),
      )

-- No message has had more attempts than it may have, and one that has failed for good has had all.
pub record IsBounded (m : EmailOutbox) : Type 0 where
  pub attempts : m.attempt_count ≤ m.max_attempts
  pub exhausted : (not (is_failed m.status) || m.attempt_count == m.max_attempts) ≡ true

abbrev BelowLimit : EmailOutbox → Type 0
BelowLimit m = m.attempt_count < m.max_attempts

module _ (P : EmailOutbox → Type 0) where
  All-insert_due :
      (m : EmailOutbox) (xs : List EmailOutbox) → P m → All P xs → All P (insert_due m xs)
  unfolding insert_due
  All-insert_due m [] h hs = (h, tt)
  All-insert_due m (x ∷ xs) h hs = elim (Bool-cases (leb m.next_attempt_at x.next_attempt_at)) [
    | inl first ↦ rw first (h, hs)
    | inr later ↦ rw later (hs.0, All-insert_due m xs h hs.1)
  ]

  pub All-sort_due : (xs : List EmailOutbox) → All P xs → All P (sort_due xs)
  unfolding sort_due
  All-sort_due [] h = tt
  All-sort_due (x ∷ xs) h = All-insert_due x (sort_due xs) h.0 (All-sort_due xs h.1)

due_below : (now : ℕ) (xs : List EmailOutbox) → All BelowLimit (filter (is_due now) xs)
unfolding is_due
due_below now [] = tt
due_below now (x ∷ xs) = elim (Bool-cases (is_due now x)) [
  | inl due ↦ rw due (ground arith, due_below now xs)
  | inr other ↦ rw other (due_below now xs)
]

send_one-IsBounded :
    (base_seconds now : ℕ) (delivery : Delivery) (m : EmailOutbox)
    → BelowLimit m
    → IsBounded (send_one base_seconds now delivery m)
unfolding send_one
send_one-IsBounded base_seconds now returned m h = record {
  attempts = omega arith;
  exhausted = refl;
}
send_one-IsBounded base_seconds now (raised error) m h = record {
  attempts = ground arith;
  exhausted = ground arith;
}

send_all-IsBounded :
    (base_seconds now : ℕ) (deliver : EmailOutbox → Delivery) (ms : List EmailOutbox) (c : Summary)
    (table : List EmailOutbox)
    → All BelowLimit ms
    → All IsBounded table
    → All IsBounded (send_all base_seconds now deliver ms c table).1
unfolding send_all
send_all-IsBounded base_seconds now deliver [] c table below h = h
send_all-IsBounded base_seconds now deliver (m ∷ ms) c table below h =
    let m' = send_one base_seconds now (deliver m) m in
    send_all-IsBounded base_seconds now deliver ms (count_outcome (deliver m) m' c)
      (put_row m' table) below.1
      (All-update_where IsBounded (λ x. x.id == m'.id) (λ _. m')
        (λ a _ _. send_one-IsBounded base_seconds now (deliver m) m below.0) table h)

-- A round of the worker keeps the bounds of every message, whatever the mail server does.
pub process_due-IsBounded :
    (base_seconds batch_size now : ℕ) (deliver : EmailOutbox → Delivery) (d : AuthDb)
    → All IsBounded d.email_outbox
    → All IsBounded (process_due base_seconds batch_size now deliver d).1.email_outbox
unfolding process_due
process_due-IsBounded base_seconds batch_size now deliver d h =
    send_all-IsBounded base_seconds now deliver (due_messages batch_size now d.email_outbox)
      (none_yet (length (due_messages batch_size now d.email_outbox))) d.email_outbox
      (All-take BelowLimit batch_size (sort_due (filter (is_due now) d.email_outbox)) (
        All-sort_due BelowLimit (filter (is_due now) d.email_outbox)
          (due_below now d.email_outbox)))
      h
