-- ===== src/Tests/Telegram.antt =====
-- The author links a Telegram account.
use text.Mathlib.Text.{◌==◌ as str_eq}
use student_knowledge_hub.Prelude.{
  All, arith, ◌≤◌, true, false, ◌&&◌, ◌||◌, none, some, [], ◌∷◌, not, leb, is_some, find, get_row,
  put_row, ◌≡◌, refl,
}
use student_knowledge_hub.Service.{Result, ok, request}
use student_knowledge_hub.Hub.Tables.{
  admin, user_registered, failed, Payload, TelegramEvent, Hub, User, user_keyed,
}
use student_knowledge_hub.Telegram.Links.{
  TelegramLinkSession, TelegramUserPayload, LinkDb, LinkStatus, token_used, linked_successfully,
  link_session_keyed, link_of_user, link_of_telegram, used, linked_here, linked_to_another,
  used_by_another, consume_link_session, consume_token,
}
use student_knowledge_hub.Telegram.Links.Laws.{is_new, consume_token_sound, consume_token_again}
use student_knowledge_hub.Telegram.Dispatch.{answered, dispatch_pending_events}
use student_knowledge_hub.Telegram.Dispatch.Laws.{dispatch_pending_events-IsWithin}
use student_knowledge_hub.Tests.Sample.{hub}

abbrev open_session : TelegramLinkSession
open_session = record {
  id = 60;
  user_id = 2;
  token_hash = "token";
  code_hash = "code";
  expires_at = 600;
  used_at = none;
  revoked_at = none;
  is_active = true;
}

abbrev db : LinkDb
db = record { hub = hub; links = []; link_sessions = open_session ∷ [] }

abbrev account : TelegramUserPayload
account = record {
  telegram_user_id = 777;
  username = some "aziz";
  first_name = none;
  last_name = none;
  language_code = none;
}

abbrev linked : Result LinkStatus × LinkDb × Unit {0}
linked = request (consume_token (λ t. t) 50 "token" account) db tt

consume_token_sound_example :
    (s : TelegramLinkSession) × (user : User) × (find
        (λ x. str_eq x.token_hash "token")
        db.link_sessions
      ≡ some s)
    × (get_row s.user_id db.hub.users ≡ some user)
    × ((is_some s.used_at || not s.is_active || is_some s.revoked_at || leb s.expires_at 50)
        ≡ false)
    × (linked.1.link_sessions ≡ put_row (used 50 s) db.link_sessions)
    × (linked_to_another 777 (link_of_user user.id db) ≡ false)
    × ((is_new linked_successfully && used_by_another user.id (link_of_telegram 777 db)) ≡ false)
    × (linked_here 777 (link_of_user user.id linked.1) ≡ true)
unfolding consume_token consume_link_session
consume_token_sound_example =
    consume_token_sound (λ t. t) 50 "token" account db tt linked_successfully linked.1 linked.2 refl
      refl

consume_token_again_example :
    request (consume_token (λ t. t) 60 "token" account) linked.1 linked.2
    ≡ (ok token_used, linked.1, linked.2)
unfolding consume_token consume_link_session
consume_token_again_example =
    consume_token_again (λ t. t) 50 "token" account db tt linked_successfully linked.1 linked.2 60
      account refl refl

abbrev waiting : TelegramEvent
waiting = record {
  id = 95;
  event_type = user_registered;
  entity_type = some "user";
  entity_id = some 2;
  recipient_user_id = 1;
  recipient_role = admin;
  delivery_channel = "telegram_bot";
  payload = Payload.of_user 2 "a@example.uz";
  status = failed;
  attempt_count = 2;
  last_error = some "timeout";
  dispatched_at = none;
}

abbrev hub_waiting : Hub
hub_waiting = record hub { events = waiting ∷ [] }

dispatch_pending_events-IsWithin_example :
    All
      (λ e. e.attempt_count ≤ 3)
      (dispatch_pending_events true 3 100 50 (λ e. answered 500 "500: down") hub_waiting).1.events
dispatch_pending_events-IsWithin_example =
    dispatch_pending_events-IsWithin 3 50 (λ e. answered 500 "500: down") true 100 hub_waiting
      (omega arith, tt)
