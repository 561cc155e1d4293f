-- ===== src/Telegram/Links/Laws.antt =====
-- `TelegramService.consume_token`, and the link that it writes.
use text.Mathlib.Text.{◌==◌ as str_eq}
use student_knowledge_hub.Prelude.{
  ℕ, String, Bool, true, false, ◌&&◌, ◌||◌, Option, none, some, List, [], ◌∷◌, ◌++◌, not, ◌==◌, leb,
  is_some, find, find_sound, find-put_row_self, get_row, put_row, delete_where, Option-cases,
  Bool-cases, inl, inr, ◌≡◌, refl, arith,
}
use student_knowledge_hub.Service.{ok, request}
use student_knowledge_hub.Hub.Tables.{User, user_keyed}
use student_knowledge_hub.Telegram.Links.{
  TelegramLink, TelegramLinkSession, TelegramUserPayload, LinkDb, LinkStatus, token_used,
  linked_successfully, already_linked_to_this_account, link_keyed, link_session_keyed, link_of_user,
  link_of_telegram, used, linked_to_another, linked_here, used_by_another, link_row, link_account,
  resolve_link, consume_token, consume_link_session,
}

-- The status says that the session has been used up.
abbrev pub is_linked : LinkStatus → Bool
is_linked linked_successfully = true
is_linked already_linked_to_this_account = true
is_linked _ = false

abbrev pub is_new : LinkStatus → Bool
is_new linked_successfully = true
is_new _ = false

resolve_link-link_sessions :
    (now : ℕ) (user : User) (tg : TelegramUserPayload) (own other : Option TelegramLink)
    (d : LinkDb)
    → (resolve_link now user tg own other d).link_sessions ≡ d.link_sessions
unfolding resolve_link
resolve_link-link_sessions now user tg none none d = refl
resolve_link-link_sessions now user tg (some l) none d = refl
resolve_link-link_sessions now user tg none (some r) d = refl
resolve_link-link_sessions now user tg (some l) (some r) d = refl

link_account-link_sessions :
    (now : ℕ) (s : TelegramLinkSession) (user : User) (tg : TelegramUserPayload)
    (own other : Option TelegramLink) (d : LinkDb)
    → (link_account now s user tg own other d).link_sessions ≡ put_row (used now s) d.link_sessions
unfolding link_account
link_account-link_sessions now s user tg own other d =
    rw (resolve_link-link_sessions now user tg own other d) refl

module _ (p : TelegramLink → Bool) (b : TelegramLink) where
  find-append :
      (xs : List TelegramLink) → find p xs ≡ none → p b ≡ true → find p (xs ++ b ∷ []) ≡ some b
  find-append [] h pb = ground (arith, pb)
  find-append (x ∷ xs) h pb = ground (arith, find-append xs)

  -- A row found by another test takes values that meet this one.
  find-put_row_other :
      (q : TelegramLink → Bool) (other : TelegramLink) (xs : List TelegramLink)
      → find p xs ≡ none
      → find q xs ≡ some other
      → b.id ≡ other.id
      → p b ≡ true
      → find p (put_row b xs) ≡ some b
  find-put_row_other q other [] h f e pb = cc
  find-put_row_other q other (x ∷ xs) h f e pb = ground (arith, find-put_row_other q other xs)

  find-delete_where :
      (other_id : ℕ) (xs : List TelegramLink)
      → find p xs ≡ some b
      → (b.id == other_id) ≡ false
      → find p (delete_where (λ l. l.id == other_id) xs) ≡ some b
  find-delete_where other_id [] h ne = cc
  find-delete_where other_id (x ∷ xs) h ne = ground (arith, find-delete_where other_id xs)

-- Afterwards the link of the user is the one with the Telegram account.
resolve_link-link_of_user :
    (now : ℕ) (user : User) (tg : TelegramUserPayload) (own other : Option TelegramLink)
    (d : LinkDb)
    → link_of_user user.id d ≡ own
    → link_of_telegram tg.telegram_user_id d ≡ other
    → linked_here tg.telegram_user_id (link_of_user user.id (resolve_link now user tg own other d))
      ≡ true
unfolding resolve_link
resolve_link-link_of_user now user tg none none d o t = ground (
  arith,
  find-append (λ l. l.user_id == user.id) (link_row now d.hub.next_id user.id tg) d.links o,
)
resolve_link-link_of_user now user tg (some own) none d o t = ground (
  arith,
  find-put_row_self (λ l. l.user_id == user.id) own (link_row now own.id user.id tg) d.links o refl,
)
resolve_link-link_of_user now user tg none (some other) d o t = ground (
  arith,
  find-put_row_other (λ l. l.user_id == user.id) (link_row now other.id user.id tg)
      (λ l. l.telegram_user_id == tg.telegram_user_id) other d.links o t refl,
)
resolve_link-link_of_user now user tg (some own) (some other) d o t =
    elim (Bool-cases (own.id == other.id)) [
      | inl same ↦ ground (
        arith,
        find-put_row_self (λ l. l.user_id == user.id) own (link_row now own.id user.id tg) d.links o
            refl,
      )
      | inr two ↦ ground (
        arith,
        find-put_row_self (λ l. l.user_id == user.id) own (link_row now own.id user.id tg)
            (delete_where (λ l. l.id == other.id) d.links)
            (find-delete_where (λ l. l.user_id == user.id) own other.id d.links o two) refl,
      )
    ]

link_account-linked_here :
    (now : ℕ) (s : TelegramLinkSession) (user : User) (tg : TelegramUserPayload) (d : LinkDb)
    → linked_here tg.telegram_user_id (
        link_of_user user.id (
          link_account now s user tg
            (link_of_user user.id d)
            (link_of_telegram tg.telegram_user_id d)
            d))
      ≡ true
unfolding link_account
link_account-linked_here now s user tg d =
    resolve_link-link_of_user now user tg (link_of_user user.id d)
      (link_of_telegram tg.telegram_user_id d) d refl refl

module _ {E : Type 0} (sha256_text : String → String) (now : ℕ) (token : String)
    (tg : TelegramUserPayload) (d : LinkDb) (out : E) where
  -- A token that has linked an account, or has confirmed its link, had an unused, active, unrevoked and
  -- unexpired session of an existing user, who was in no active link with another account; where the
  -- link is new, the account was in no active link of another user. Afterwards, durably, that session
  -- is used, and the link of the user is active and with the Telegram account.
  pub consume_token_sound :
      (status : LinkStatus) (d' : LinkDb) (out' : E)
      → request (consume_token {E = E} sha256_text now token tg) d out ≡ (ok status, d', out')
      → is_linked status ≡ true
      → (s : TelegramLinkSession) × (user : User) × (find
            (λ x. str_eq x.token_hash (sha256_text token))
            d.link_sessions
          ≡ some s)
        × (get_row s.user_id d.hub.users ≡ some user)
        × ((is_some s.used_at || not s.is_active || is_some s.revoked_at || leb s.expires_at now)
            ≡ false)
        × (d'.link_sessions ≡ put_row (used now s) d.link_sessions)
        × (linked_to_another tg.telegram_user_id (link_of_user user.id d) ≡ false)
        × ((is_new status && used_by_another user.id (link_of_telegram tg.telegram_user_id d))
            ≡ false)
        × (linked_here tg.telegram_user_id (link_of_user user.id d') ≡ true)
  unfolding consume_token consume_link_session
  consume_token_sound status d' out' h linked =
      elim (Option-cases (find (λ x. str_eq x.token_hash (sha256_text token)) d.link_sessions)) [
        | inl lost ↦ absurd (ground arith)
        | inr (s, found) ↦ elim (Option-cases (get_row s.user_id d.hub.users)) [
          | inl unknown ↦ absurd (ground arith)
          | inr (user, known) ↦
              let sessions =
                link_account-link_sessions now s user tg (link_of_user user.id d)
                  (link_of_telegram tg.telegram_user_id d) d in
              (
                s,
                user,
                found,
                known,
                ground arith,
                ground (arith, sessions),
                ground arith,
                ground arith,
                ground (arith, link_account-linked_here now s user tg d),
              )
        ]
      ]

  -- A token that has linked an account, or has confirmed its link, is answered from then on by
  -- `token_used`, whoever presents it, and nothing changes.
  pub consume_token_again :
      (status : LinkStatus) (d' : LinkDb) (out' : E) (later : ℕ) (other : TelegramUserPayload)
      → request (consume_token {E = E} sha256_text now token tg) d out ≡ (ok status, d', out')
      → is_linked status ≡ true
      → request (consume_token {E = E} sha256_text later token other) d' out'
        ≡ (ok token_used, d', out')
  unfolding consume_token consume_link_session
  consume_token_again status d' out' later other h linked =
      let (s, user, found, known, fresh, sessions, free, unclaimed, there) =
        consume_token_sound status d' out' h linked in
      let again : find (λ x. str_eq x.token_hash (sha256_text token)) d'.link_sessions
          ≡ some (used now s) =
        rw sessions (
          find-put_row_self (λ x. str_eq x.token_hash (sha256_text token)) s (used now s)
            d.link_sessions found refl
            (find_sound (λ x. str_eq x.token_hash (sha256_text token)) d.link_sessions found)) in
      ground (arith, again)
