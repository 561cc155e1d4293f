-- ===== src/Telegram/Dispatch/Laws.antt =====
-- Rounds of `TelegramEventDispatcher.dispatch_pending_events`.
use student_knowledge_hub.Prelude.{
  ℕ, ◌≤◌, ◌<◌, Bool, true, false, List, [], ◌∷◌, filter, take, put_row, All, All-take,
  All-update_where, ◌==◌, arith, Bool-cases, inl, inr,
}
use student_knowledge_hub.Hub.Tables.{TelegramEvent, Hub, event_keyed}
use student_knowledge_hub.Telegram.Dispatch.{
  Answer, is_sendable, list_pending_events, attempted, dispatch_all, dispatch_pending_events,
}

module _ (max_attempts now : ℕ) (call : TelegramEvent → Answer) where
  -- An event has had at most the attempts that it may have.
  abbrev pub IsWithin : TelegramEvent → Type 0
  IsWithin e = e.attempt_count ≤ max_attempts

  abbrev IsBelow : TelegramEvent → Type 0
  IsBelow e = e.attempt_count < max_attempts

  sendable-IsBelow : (es : List TelegramEvent) → All IsBelow (filter (is_sendable max_attempts) es)
  unfolding is_sendable
  sendable-IsBelow [] = tt
  sendable-IsBelow (e ∷ es) = elim (Bool-cases (is_sendable max_attempts e)) [
    | inl due ↦ rw due (ground arith, sendable-IsBelow es)
    | inr over ↦ rw over (sendable-IsBelow es)
  ]

  attempted-IsWithin : (e : TelegramEvent) → IsBelow e → IsWithin (attempted now (call e) e)
  unfolding attempted
  attempted-IsWithin e below = ground arith

  dispatch_all-IsWithin :
      (es : List TelegramEvent) (h : Hub)
      → All IsBelow es
      → All IsWithin h.events
      → All IsWithin (dispatch_all now call es h).1.events
  unfolding dispatch_all
  dispatch_all-IsWithin [] h below within = within
  dispatch_all-IsWithin (e ∷ es) h below within =
      let e' = attempted now (call e) e in
      dispatch_all-IsWithin es (record h { events = put_row e' h.events }) below.1
        (All-update_where IsWithin (λ x. x.id == e'.id) (λ _. e')
          (λ _ _ _. attempted-IsWithin e below.0) h.events within)

  -- A round of the dispatcher, whatever the bot answers, keeps that no event has had more attempts
  -- than it may have.
  pub dispatch_pending_events-IsWithin :
      (enabled : Bool) (limit : ℕ) (h : Hub)
      → All IsWithin h.events
      → All IsWithin (dispatch_pending_events enabled max_attempts limit now call h).1.events
  unfolding dispatch_pending_events list_pending_events
  dispatch_pending_events-IsWithin false limit h within = within
  dispatch_pending_events-IsWithin true limit h within =
      dispatch_all-IsWithin (take limit (filter (is_sendable max_attempts) h.events)) h
        (All-take IsBelow limit (filter (is_sendable max_attempts) h.events)
          (sendable-IsBelow h.events))
        within
