-- ===== src/Hub/Events.antt =====
-- app/modules/telegram/event_service.py: the outbox of Telegram events and their recipients. Its
-- callers read no result of the `enqueue` methods, so these return the tables alone.
pub mod Laws
use text.Mathlib.Text.{◌==◌ as str_eq}
use student_knowledge_hub.Prelude.{
  ℕ, ◌+◌, String, Bool, ◌&&◌, ◌||◌, Option, none, some, List, [], ◌∷◌, ◌++◌, map, ◌==◌, opt_eq,
  contains, filter, any, find, get_row, if◌then◌else◌,
}
use student_knowledge_hub.Hub.Tables.{
  is_admin, User, user_keyed, Faculty, faculty_keyed, subject_keyed, Scope, TelegramEventType,
  type_code, pending, Payload, TelegramEvent, Hub, user_registered, telegram_account_linked,
  telegram_account_unlinked, material_submitted_for_review, proposal_created,
}

-- The condition of the query in `create_event`, the unique key of the table.
unfoldable pub same_identity : TelegramEventType → Option ℕ → ℕ → String → TelegramEvent → Bool
same_identity type entity_id recipient_id channel e =
    type_code e.event_type == type_code type
    && opt_eq e.entity_id entity_id
    && e.recipient_user_id == recipient_id
    && str_eq e.delivery_channel channel

abbrev pub new_event :
    TelegramEventType → Option String → Option ℕ → User → Payload → String → ℕ → TelegramEvent
new_event type entity_type entity_id recipient payload channel id = record {
  id = id;
  event_type = type;
  entity_type = entity_type;
  entity_id = entity_id;
  recipient_user_id = recipient.id;
  recipient_role = recipient.role;
  delivery_channel = channel;
  payload = payload;
  status = pending;
  attempt_count = 0;
  last_error = none;
  dispatched_at = none;
}

unfoldable pub create_event :
    TelegramEventType
    → Option String
    → Option ℕ
    → User
    → Payload
    → String
    → Hub
    → TelegramEvent × Hub
create_event type entity_type entity_id recipient payload channel h =
    elim (find (same_identity type entity_id recipient.id channel) h.events) [
      | some event ↦ (event, h)
      | none ↦
          let event = new_event type entity_type entity_id recipient payload channel h.next_id in
          (event, record h { events = h.events ++ event ∷ []; next_id = h.next_id + 1 })
    ]

abbrev pub default_channel : String
default_channel = "telegram_bot"

-- The loop over the recipients.
unfoldable pub create_events :
    TelegramEventType → Option String → Option ℕ → Payload → List User → Hub → Hub
create_events type entity_type entity_id payload [] h = h
create_events type entity_type entity_id payload (r ∷ rs) h =
    create_events type entity_type entity_id payload rs
      (create_event type entity_type entity_id r payload default_channel h).1

abbrev is_active_admin : User → Bool
is_active_admin u = is_admin u.role && u.is_active

unfoldable pub list_admin_recipients : Hub → List User
list_admin_recipients h = filter is_active_admin h.users

unfoldable pub load_users_by_ids : List ℕ → Hub → List User
load_users_by_ids ids h = filter (λ u. contains u.id ids && u.is_active) h.users

-- `select(Scope.user_id).where(...)`
abbrev scoped_users : (ℕ → Bool) → List Scope → List ℕ
scoped_users covers scopes =
    map (λ (s : Scope). s.user_id) (filter (λ s. covers s.target_id) scopes)

abbrev admin_ids : Hub → List ℕ
admin_ids h = map (λ (u : User). u.id) (list_admin_recipients h)

-- The three classes of proposals, by the parent that their recipients depend on.
pub data ProposalTarget : Type 0 where
  university_proposal : ProposalTarget
  faculty_proposal : (university_id : ℕ) → ProposalTarget
  subject_proposal : (faculty_id : ℕ) → ProposalTarget

abbrev faculty_of_university : ℕ → Hub → ℕ → Bool
faculty_of_university university_id h i =
    any (λ f. f.id == i && f.university_id == university_id) h.faculties

abbrev subject_of_faculty : ℕ → Hub → ℕ → Bool
subject_of_faculty faculty_id h i = any (λ s. s.id == i && s.faculty_id == faculty_id) h.subjects

unfoldable pub resolve_proposal_recipients : ProposalTarget → Hub → List User
unfolding load_users_by_ids list_admin_recipients
resolve_proposal_recipients university_proposal h = load_users_by_ids (admin_ids h) h
resolve_proposal_recipients (faculty_proposal university_id) h =
    load_users_by_ids
      (admin_ids h
        ++ (scoped_users (λ i. i == university_id) h.university_scopes
            ++ scoped_users (faculty_of_university university_id h) h.faculty_scopes))
      h
resolve_proposal_recipients (subject_proposal faculty_id) h =
    elim (get_row faculty_id h.faculties) [
      | none ↦ load_users_by_ids (admin_ids h) h
      | some faculty ↦
          load_users_by_ids
            (admin_ids h
              ++ (scoped_users (λ i. i == faculty.university_id) h.university_scopes
                  ++ (scoped_users (λ i. i == faculty_id) h.faculty_scopes
                      ++ scoped_users (subject_of_faculty faculty_id h) h.subject_scopes)))
            h
    ]

abbrev university_scoped : Option Faculty → Hub → List ℕ
university_scoped none h = []
university_scoped (some f) h = scoped_users (λ i. i == f.university_id) h.university_scopes

-- `_resolve_material_recipients`, by the material's subject.
unfoldable pub resolve_material_recipients : ℕ → Hub → List User
unfolding load_users_by_ids list_admin_recipients
resolve_material_recipients subject_id h = elim (get_row subject_id h.subjects) [
  | none ↦ load_users_by_ids (admin_ids h) h
  | some subject ↦
      load_users_by_ids
        (admin_ids h
          ++ (scoped_users (λ i. i == subject.id) h.subject_scopes
              ++ (scoped_users (λ i. i == subject.faculty_id) h.faculty_scopes
                  ++ university_scoped (get_row subject.faculty_id h.faculties) h)))
        h
]

unfoldable pub enqueue_user_registered_events : User → Hub → Hub
unfolding list_admin_recipients create_events
enqueue_user_registered_events user h =
    create_events user_registered (some "user") (some user.id) (Payload.of_user user.id user.email)
      (list_admin_recipients h) h

unfoldable pub enqueue_user_security_events : TelegramEventType → User → ℕ → Hub → Hub
unfolding list_admin_recipients create_events
enqueue_user_security_events type user entity_id h =
    create_events type (some "user") (some entity_id) (Payload.of_user user.id user.email)
      (list_admin_recipients h) h

-- `enqueue_telegram_account_linked_events` and its counterpart for a link that ends.
abbrev link_events : TelegramEventType → User → ℕ → Option String → Hub → Hub
link_events type user link_id username h =
    create_events type (some "telegram_link") (some link_id)
      (Payload.of_link user.id user.email username) (list_admin_recipients h) h

unfoldable pub enqueue_telegram_account_linked_events : User → ℕ → Option String → Hub → Hub
unfolding list_admin_recipients create_events
enqueue_telegram_account_linked_events = link_events telegram_account_linked

unfoldable pub enqueue_telegram_account_unlinked_events : User → ℕ → Option String → Hub → Hub
unfolding list_admin_recipients create_events
enqueue_telegram_account_unlinked_events = link_events telegram_account_unlinked

unfoldable pub enqueue_material_submitted_events : Payload → ℕ → ℕ → Hub → Hub
unfolding resolve_material_recipients create_events
enqueue_material_submitted_events payload subject_id event_id h =
    create_events material_submitted_for_review (some "material") (some event_id) payload
      (resolve_material_recipients subject_id h) h

abbrev owner_event : TelegramEventType → Option String → ℕ → Payload → Option User → Hub → Hub
owner_event type entity_type entity_id payload none h = h
owner_event type entity_type entity_id payload (some owner) h =
    if owner.is_active
    then (create_event type entity_type (some entity_id) owner payload default_channel h).1
    else h

-- Nothing is sent to an owner who is gone or not active.
unfoldable pub enqueue_material_owner_event : TelegramEventType → ℕ → ℕ → Payload → Hub → Hub
unfolding create_event
enqueue_material_owner_event type material_id uploaded_by payload h =
    owner_event type (some "material") material_id payload (get_row uploaded_by h.users) h

unfoldable pub enqueue_proposal_created_events : ℕ → ProposalTarget → String → Hub → Hub
unfolding resolve_proposal_recipients create_events
enqueue_proposal_created_events proposal_id target type h =
    create_events proposal_created (some "proposal") (some proposal_id)
      (Payload.of_proposal proposal_id type) (resolve_proposal_recipients target h) h

unfoldable pub enqueue_proposal_owner_event : TelegramEventType → ℕ → ℕ → Payload → Hub → Hub
unfolding create_event
enqueue_proposal_owner_event type proposal_id created_by payload h =
    owner_event type (some "proposal") proposal_id payload (get_row created_by h.users) h
