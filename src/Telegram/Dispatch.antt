-- ===== src/Telegram/Dispatch.antt =====
-- The delivery of the event outbox to the bot: app/modules/telegram/dispatcher.py, and the methods of
-- `TelegramEventService` that it calls.
pub mod Laws
use student_knowledge_hub.Prelude.{
  ℕ, suc, ◌+◌, String, Bool, true, false, ◌&&◌, Option, none, some, List, [], ◌∷◌, not, leb, ltb,
  filter, take, put_row, if◌then◌else◌,
}
use student_knowledge_hub.Hub.Tables.{
  TelegramEvent, dispatched, failed, is_dispatched, Hub, event_keyed,
}

-- What the call of the bot comes to: a response with its status code and the text
-- "{status_code}: {text}" that an error is kept as, or an exception with its text.
pub data Answer : Type 0 where
  answered : (status_code : ℕ) → (described : String) → Answer
  broken : String → Answer

abbrev pub is_success : Answer → Bool
is_success (answered status_code described) = leb 200 status_code && ltb status_code 300
is_success (broken error) = false

abbrev pub error_of : Answer → String
error_of (answered status_code described) = described
error_of (broken error) = error

-- The condition of `list_pending_events`.
unfoldable pub is_sendable : ℕ → TelegramEvent → Bool
is_sendable max_attempts e = not (is_dispatched e.status) && ltb e.attempt_count max_attempts

unfoldable pub list_pending_events : ℕ → ℕ → Hub → List TelegramEvent
list_pending_events max_attempts limit h = take limit (filter (is_sendable max_attempts) h.events)

unfoldable pub mark_dispatched : ℕ → TelegramEvent → TelegramEvent
mark_dispatched now e = record e {
  status = dispatched;
  attempt_count = e.attempt_count + 1;
  last_error = none;
  dispatched_at = some now;
}

unfoldable pub mark_failed : String → TelegramEvent → TelegramEvent
mark_failed error e = record e {
  status = failed;
  attempt_count = e.attempt_count + 1;
  last_error = some error;
}

unfoldable pub attempted : ℕ → Answer → TelegramEvent → TelegramEvent
unfolding mark_dispatched mark_failed
attempted now answer e =
    if is_success answer then mark_dispatched now e else mark_failed (error_of answer) e

-- The loop of `dispatch_events`, with the number of events dispatched.
unfoldable pub dispatch_all : ℕ → (TelegramEvent → Answer) → List TelegramEvent → Hub → ℕ × Hub
unfolding attempted
dispatch_all now call [] h = (0, h)
dispatch_all now call (e ∷ es) h =
    let (n, h') =
      dispatch_all now call es
        (record h { events = put_row (attempted now (call e) e) h.events }) in
    (if is_success (call e) then suc n else n, h')

-- `dispatch_pending_events`; `enabled` is what `_is_enabled` reads from the settings.
unfoldable pub dispatch_pending_events : Bool → ℕ → ℕ → ℕ → (TelegramEvent → Answer) → Hub → ℕ × Hub
dispatch_pending_events enabled max_attempts limit now call h =
    if not enabled
    then (0, h)
    else dispatch_all now call (list_pending_events max_attempts limit h) h
