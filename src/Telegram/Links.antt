-- ===== src/Telegram/Links.antt =====
-- app/modules/telegram/service.py: the sessions by which a user links a Telegram account, and the
-- links.
pub mod Laws
use text.Mathlib.Text.{◌==◌ as str_eq}
use student_knowledge_hub.Prelude.{
  ℕ, ◌+◌, String, Bool, true, false, ◌&&◌, ◌||◌, Option, none, some, List, [], ◌∷◌, ◌++◌, not, ◌==◌,
  leb, Keyed, is_some, is_none, find, get_row, put_row, update_where, delete_where, if◌then◌else◌,
}
use student_knowledge_hub.Service.{
  Handler, resource_not_found, pure, skip, gets, or_raise, modify, commit, ◌>>=◌, ◌>>◌,
}
use student_knowledge_hub.Hub.Tables.{User, Hub, Detail, ident, audit, user_keyed}
use student_knowledge_hub.Hub.Events.{
  enqueue_telegram_account_linked_events, enqueue_telegram_account_unlinked_events,
}

pub record TelegramLink : Type 0 where
  pub id : ℕ
  pub user_id : ℕ
  pub telegram_user_id : ℕ
  pub telegram_username : Option String
  pub telegram_first_name : Option String
  pub telegram_last_name : Option String
  pub language_code : Option String
  pub linked_at : ℕ
  pub unlinked_at : Option ℕ
  pub is_active : Bool

pub record TelegramLinkSession : Type 0 where
  pub id : ℕ
  pub user_id : ℕ
  pub token_hash : String
  pub code_hash : String
  pub expires_at : ℕ
  pub used_at : Option ℕ
  pub revoked_at : Option ℕ
  pub is_active : Bool

pub record TelegramUserPayload : Type 0 where
  pub telegram_user_id : ℕ
  pub username : Option String
  pub first_name : Option String
  pub last_name : Option String
  pub language_code : Option String

pub record LinkDb : Type 0 where
  pub hub : Hub
  pub links : List TelegramLink
  pub link_sessions : List TelegramLinkSession

-- The `status` of a response.
pub data LinkStatus : Type 0 where
  not_linked unlinked linked_successfully already_linked_to_this_account : LinkStatus
  telegram_account_already_used platform_account_has_another_telegram : LinkStatus
  token_invalid token_expired token_used invalid_code expired_code used_code : LinkStatus

instance abbrev pub link_keyed : Keyed TelegramLink
link_keyed = record { key = λ l. l.id }

instance abbrev pub link_session_keyed : Keyed TelegramLinkSession
link_session_keyed = record { key = λ s. s.id }

-- `_get_link_by_user_id` and `_get_link_by_telegram_user_id`
abbrev pub link_of_user : ℕ → LinkDb → Option TelegramLink
link_of_user user_id d = find (λ l. l.user_id == user_id) d.links

abbrev pub link_of_telegram : ℕ → LinkDb → Option TelegramLink
link_of_telegram telegram_user_id d = find (λ l. l.telegram_user_id == telegram_user_id) d.links

abbrev pub save_session : TelegramLinkSession → LinkDb → LinkDb
save_session s d = record d { link_sessions = put_row s d.link_sessions }

abbrev pub used : ℕ → TelegramLinkSession → TelegramLinkSession
used now s = record s { used_at = some now; is_active = false }

-- The tests of `_consume_link_session` on the two links that it finds.
abbrev pub linked_here : ℕ → Option TelegramLink → Bool
linked_here telegram_user_id none = false
linked_here telegram_user_id (some l) = l.is_active && l.telegram_user_id == telegram_user_id

abbrev pub linked_to_another : ℕ → Option TelegramLink → Bool
linked_to_another telegram_user_id none = false
linked_to_another telegram_user_id (some l) =
    l.is_active && not (l.telegram_user_id == telegram_user_id)

abbrev pub used_by_another : ℕ → Option TelegramLink → Bool
used_by_another user_id none = false
used_by_another user_id (some l) = l.is_active && not (l.user_id == user_id)

-- The new values of the link's row.
abbrev pub link_row : ℕ → ℕ → ℕ → TelegramUserPayload → TelegramLink
link_row now id user_id tg = record {
  id = id;
  user_id = user_id;
  telegram_user_id = tg.telegram_user_id;
  telegram_username = tg.username;
  telegram_first_name = tg.first_name;
  telegram_last_name = tg.last_name;
  language_code = tg.language_code;
  linked_at = now;
  unlinked_at = none;
  is_active = true;
}

-- `_resolve_link_record`, with the row that it deletes, and the row that is written in the end: of
-- two links that are not the same, the one of the Telegram account goes away.
unfoldable pub resolve_link :
    ℕ → User → TelegramUserPayload → Option TelegramLink → Option TelegramLink → LinkDb → LinkDb
resolve_link now user tg none none d = record d {
  links = d.links ++ link_row now d.hub.next_id user.id tg ∷ [];
  hub = record d.hub { next_id = d.hub.next_id + 1 };
}
resolve_link now user tg (some own) none d = record d {
  links = put_row (link_row now own.id user.id tg) d.links;
}
resolve_link now user tg none (some other) d = record d {
  links = put_row (link_row now other.id user.id tg) d.links;
}
resolve_link now user tg (some own) (some other) d =
    let kept =
      if own.id == other.id then d.links else delete_where (λ l. l.id == other.id) d.links in
    record d { links = put_row (link_row now own.id user.id tg) kept }

-- The id that the link's row has, and the one in the audit entry: the id of a new row is not yet
-- assigned when the entry is written.
abbrev link_id : Option TelegramLink → Option TelegramLink → Hub → ℕ
link_id none none h = h.next_id
link_id none (some other) h = other.id
link_id (some own) _ h = own.id

abbrev logged_id : Option TelegramLink → Option TelegramLink → Option ℕ
logged_id none none = none
logged_id none (some other) = some other.id
logged_id (some own) _ = some own.id

-- The link is written, the session is used, and both are recorded.
unfoldable pub link_account :
    ℕ
    → TelegramLinkSession
    → User
    → TelegramUserPayload
    → Option TelegramLink
    → Option TelegramLink
    → LinkDb
    → LinkDb
unfolding resolve_link
link_account now s user tg own other d =
    let changed = save_session (used now s) (resolve_link now user tg own other d) in
    record changed {
      hub = enqueue_telegram_account_linked_events user (link_id own other d.hub) tg.username (
          audit "telegram_linked" "telegram_link" (some user) (logged_id own other)
            (some (ident tg.telegram_user_id)) changed.hub);
    }

module _ {E : Type 0} where
  -- The three ways in which the consumption of a session is committed.
  abbrev expire : Bool → TelegramLinkSession → Handler LinkDb E LinkStatus
  expire by_code s = do
    modify (save_session (record s { is_active = false }))
    commit
    pure (if by_code then expired_code else token_expired)

  abbrev keep_link : ℕ → TelegramLinkSession → Handler LinkDb E LinkStatus
  keep_link now s = do
    modify (save_session (used now s))
    commit
    pure already_linked_to_this_account

  abbrev write_link :
      ℕ
      → TelegramLinkSession
      → User
      → TelegramUserPayload
      → Option TelegramLink
      → Option TelegramLink
      → Handler LinkDb E LinkStatus
  write_link now s user tg own other = do
    modify (link_account now s user tg own other)
    commit
    pure linked_successfully

  -- `_consume_link_session`; `by_code` tells the two callers apart.
  unfoldable pub consume_link_session :
      ℕ → Bool → TelegramLinkSession → TelegramUserPayload → Handler LinkDb E LinkStatus
  consume_link_session now by_code s tg =
      if is_some s.used_at
      then pure (if by_code then used_code else token_used)
      else if not s.is_active || is_some s.revoked_at
      then pure (if by_code then invalid_code else token_invalid)
      else if leb s.expires_at now
      then expire by_code s
      else do
        found ← gets (λ d. get_row s.user_id d.hub.users)
        user ← or_raise found (resource_not_found "User not found")
        own ← gets (link_of_user user.id)
        other ← gets (link_of_telegram tg.telegram_user_id)
        if linked_here tg.telegram_user_id own
            then keep_link now s
            else if used_by_another user.id other
            then pure telegram_account_already_used
            else if linked_to_another tg.telegram_user_id own
            then pure platform_account_has_another_telegram
            else write_link now s user tg own other

  abbrev consume_found :
      ℕ → Bool → Option TelegramLinkSession → TelegramUserPayload → Handler LinkDb E LinkStatus
  consume_found now by_code none tg = pure (if by_code then invalid_code else token_invalid)
  consume_found now by_code (some s) tg = consume_link_session now by_code s tg

  unfoldable pub consume_token :
      (String → String) → ℕ → String → TelegramUserPayload → Handler LinkDb E LinkStatus
  consume_token sha256_text now token tg = do
    found ← gets (λ d. find (λ s. str_eq s.token_hash (sha256_text token)) d.link_sessions)
    consume_found now false found tg

  unfoldable pub verify_code :
      (String → String) → ℕ → String → TelegramUserPayload → Handler LinkDb E LinkStatus
  verify_code sha256_text now code tg = do
    found ← gets (λ d. find (λ s. str_eq s.code_hash (sha256_text code)) d.link_sessions)
    consume_found now true found tg

  abbrev record_unlink :
      ℕ → String → Option Detail → TelegramLink → User → Handler LinkDb E (Unit {0})
  record_unlink now action details l user = do
    modify (λ d. record d {
      links = put_row (record l { is_active = false; unlinked_at = some now }) d.links;
      hub =
          enqueue_telegram_account_unlinked_events user l.id l.telegram_username
            (audit action "telegram_link" (some user) (some l.id) details d.hub);
    })
    commit

  unfoldable pub unlink : ℕ → User → Handler LinkDb E LinkStatus
  unlink now user = do
    found ← gets (λ d. find (λ l. l.user_id == user.id && l.is_active) d.links)
    l ← or_raise found (resource_not_found "Telegram link not found")
    record_unlink now "telegram_unlinked" none l user
    pure unlinked

  abbrev unlink_found : ℕ → ℕ → Option TelegramLink → Handler LinkDb E LinkStatus
  unlink_found now telegram_user_id none = pure not_linked
  unlink_found now telegram_user_id (some l) = do
    found ← gets (λ d. get_row l.user_id d.hub.users)
    user ← or_raise found (resource_not_found "User not found")
    record_unlink now "telegram_unlinked_by_internal_service" (some (ident telegram_user_id)) l user
    pure unlinked

  unfoldable pub unlink_by_telegram_user_id : ℕ → ℕ → Handler LinkDb E LinkStatus
  unlink_by_telegram_user_id now telegram_user_id = do
    found ← gets (λ d. find (λ l. l.telegram_user_id == telegram_user_id && l.is_active) d.links)
    unlink_found now telegram_user_id found
