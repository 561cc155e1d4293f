-- ===== src/Auth/Outbox/Rounds.antt =====
-- One message of the queue of emails (app/modules/auth/email_outbox.py) over rounds of the worker.
use student_knowledge_hub.Prelude.{
  ℕ, ◌+◌, ◌-◌, ◌≤◌, true, false, ◌==◌, ==_iff, none, some, List, [], ◌∷◌, count, length, get_row,
  ◌≡◌, ◌∙◌, ◌⊎◌, refl, ap, arith, Bool-cases, inl, inr,
}
use student_knowledge_hub.Admin.Users.Count.{IsUniqueKey}
use student_knowledge_hub.Auth.Model.{EmailOutbox, AuthDb, email_sent, email_keyed}
use student_knowledge_hub.Auth.Outbox.{
  is_open, is_due, Delivery, returned, send_one, none_yet, due_messages, process_due, Round,
  after_round, after_rounds,
}
use student_knowledge_hub.Auth.Outbox.Batch.{
  has_id, calls_in, batch_once, stands, batch_due, due_if_called, send_one_attempts, due_below,
  send_all-IsUniqueKey, not_called, called_once,
}

module _ (base_seconds i : ℕ) where
  -- Where the ids of the queue are unique: of the calls of `send_email` in a round of the worker none is for a message, which then stays as it is, or
  -- exactly one, for a message that is due; its row is then what `_send_one` makes of it.
  pub process_due_row :
      (r : Round) (m : EmailOutbox) (d : AuthDb)
      → IsUniqueKey d.email_outbox
      → get_row i d.email_outbox ≡ some m
      → ((calls_in i r d ≡ 0) × (get_row i (after_round base_seconds r d).email_outbox ≡ some m))
        ⊎ ((calls_in i r d ≡ 1)
            × (is_due r.now m ≡ true)
            × (get_row i (after_round base_seconds r d).email_outbox
                ≡ some (send_one base_seconds r.now (r.deliver m) m)))
  unfolding process_due
  process_due_row r m d u at =
      let ms = due_messages r.batch_size r.now d.email_outbox in
      let due =
        batch_due i r.batch_size r.now m d.email_outbox (stands i m d.email_outbox (u i) at) in
      let once = batch_once i r.batch_size r.now d.email_outbox u in
      elim (Bool-cases (count (has_id i) ms == 0)) [
        | inl e ↦ inl (
          (==_iff (count (has_id i) ms) 0).0 e,
          not_called base_seconds r.now r.deliver i ms (none_yet (length ms)) d.email_outbox
                ((==_iff (count (has_id i) ms) 0).0 e)
              ∙ at,
        )
        | inr e ↦
            let one : count (has_id i) ms ≡ 1 = ground (arith, e, once) in
            inr (
              one,
              due_if_called i r.now m ms due (omega (arith, one)),
              called_once base_seconds r.now r.deliver i m ms (none_yet (length ms)) d.email_outbox
                  due one at,
            )
      ]

  after_round-IsUniqueKey :
      (r : Round) (d : AuthDb)
      → IsUniqueKey d.email_outbox
      → IsUniqueKey (after_round base_seconds r d).email_outbox
  unfolding process_due
  after_round-IsUniqueKey r d u =
      send_all-IsUniqueKey base_seconds r.now r.deliver
        (due_messages r.batch_size r.now d.email_outbox)
        (none_yet (length (due_messages r.batch_size r.now d.email_outbox))) d.email_outbox u

  -- The calls for a message over rounds of the worker.
  unfoldable pub calls : List Round → AuthDb → ℕ
  calls [] d = 0
  calls (r ∷ rs) d = calls_in i r d + calls rs (after_round base_seconds r d)

  -- Where the ids of the queue are unique: over any rounds of the worker, whatever the calls of `send_email` come to: a message is still there, each of
  -- its calls is counted as an attempt, and there are no more of them than it had attempts left.
  pub calls-le :
      (rs : List Round) (m : EmailOutbox) (d : AuthDb)
      → IsUniqueKey d.email_outbox
      → get_row i d.email_outbox ≡ some m
      → (m' : EmailOutbox) × (get_row i (after_rounds base_seconds rs d).email_outbox ≡ some m')
        × (m'.attempt_count ≡ m.attempt_count + calls rs d)
        × (m'.max_attempts ≡ m.max_attempts)
        × (calls rs d ≤ m.max_attempts - m.attempt_count)
  unfolding after_rounds calls
  calls-le [] m d u at = (m, at, omega arith, refl, omega arith)
  calls-le (r ∷ rs) m d u at = elim (process_due_row r m d u at) [
    | inl (unread, at') ↦
        let (m', there, attempts, limit, few) =
          calls-le rs m (after_round base_seconds r d) (after_round-IsUniqueKey r d u) at' in
        (m', there, omega (arith, attempts, unread), limit, omega (arith, few, unread))
    | inr (one, due, at') ↦
        let m1 = send_one base_seconds r.now (r.deliver m) m in
        let (m', there, attempts, limit, few) =
          calls-le rs m1 (after_round base_seconds r d) (after_round-IsUniqueKey r d u) at' in
        let tried = send_one_attempts base_seconds r.now (r.deliver m) m in
        (
          m',
          there,
          omega (arith, attempts, one, tried.0),
          limit ∙ tried.1,
          omega (arith, few, one, tried.0, tried.1, due_below r.now m due),
        )
  ]

  -- A message that is not open is not touched.
  closed :
      (rs : List Round) (m : EmailOutbox) (d : AuthDb)
      → IsUniqueKey d.email_outbox
      → get_row i d.email_outbox ≡ some m
      → is_open m.status ≡ false
      → (get_row i (after_rounds base_seconds rs d).email_outbox ≡ some m) × (calls rs d ≡ 0)
  unfolding after_rounds calls is_due
  closed [] m d u at shut = (at, refl)
  closed (r ∷ rs) m d u at shut = elim (process_due_row r m d u at) [
    | inl (unread, at') ↦
        let rest =
          closed rs m (after_round base_seconds r d) (after_round-IsUniqueKey r d u) at' shut in
        (rest.0, omega (arith, rest.1, unread))
    | inr (one, due, at') ↦ absurd (ground (arith, due, shut))
  ]

  -- Where the ids of the queue are unique: a message whose call of `send_email` returns in a round is marked as sent with its error cleared, and stays
  -- so: in this and any further rounds there is no other call for it and no change of it.
  pub sent_once :
      (r : Round) (rs : List Round) (m : EmailOutbox) (d : AuthDb)
      → IsUniqueKey d.email_outbox
      → get_row i d.email_outbox ≡ some m
      → calls_in i r d ≡ 1
      → r.deliver m ≡ returned
      → (get_row i (after_rounds base_seconds (r ∷ rs) d).email_outbox
          ≡ some (record m {
            attempt_count = m.attempt_count + 1;
            last_attempt_at = some r.now;
            status = email_sent;
            sent_at = some r.now;
            last_error = none;
          }))
        × (calls (r ∷ rs) d ≡ 1)
  unfolding after_rounds calls send_one
  sent_once r rs m d u at once good = elim (process_due_row r m d u at) [
    | inl (unread, at') ↦ absurd (omega (arith, once, unread))
    | inr (one, due, at') ↦
        let there = at' ∙ ap (λ (x : Delivery). some (send_one base_seconds r.now x m)) good in
        let rest =
          closed rs (send_one base_seconds r.now returned m) (after_round base_seconds r d)
            (after_round-IsUniqueKey r d u) there (shut r.now m) in
        (rest.0 ∙ sent_row r.now m, omega (arith, rest.1, one))
  ]
    where
      shut :
          (now : ℕ) (m : EmailOutbox)
          → is_open (send_one base_seconds now returned m).status ≡ false
      shut now m = refl

      sent_row :
          (now : ℕ) (m : EmailOutbox)
          → some (send_one base_seconds now returned m)
            ≡ some (record m {
              attempt_count = m.attempt_count + 1;
              last_attempt_at = some now;
              status = email_sent;
              sent_at = some now;
              last_error = none;
            })
      sent_row now m = refl
