-- ===== src/Hub/Tables.antt =====
-- The tables that every service shares: users, the catalogue, the moderators' scopes, the audit log
-- and the Telegram event outbox (app/modules/users/models.py, catalog/models.py,
-- admin/scope_models.py, audit, telegram/models.py).
-- Ids are compared and nothing else, so they are numbers, and `next_id` is the next one unused
-- (`uuid4` in app/shared/models/mixins.py). A time is a number of seconds.
use student_knowledge_hub.Prelude.{
  ℕ, String, Bool, true, false, Option, none, some, List, [], ◌∷◌, ◌++◌, Keyed,
}

pub data UserRole : Type 0 where
  student moderator admin : UserRole

abbrev pub is_admin : UserRole → Bool
is_admin admin = true
is_admin _ = false

-- `role.value in {"admin", "moderator"}`
abbrev pub is_staff : UserRole → Bool
is_staff student = false
is_staff _ = true

-- The texts that `university_status` takes.
pub data UniversityStatus : Type 0 where
  selected awaiting declined : UniversityStatus

pub record User : Type 0 where
  pub id : ℕ
  pub full_name : String
  pub email : String
  pub hashed_password : String
  pub role : UserRole
  pub is_active : Bool
  pub is_verified : Bool
  pub university_id : Option ℕ
  pub university_changed_at : Option ℕ
  pub pending_university_name : Option String
  pub university_status : UniversityStatus

pub record University : Type 0 where
  pub id : ℕ
  pub name : String
  pub slug : String

pub record Faculty : Type 0 where
  pub id : ℕ
  pub university_id : ℕ
  pub name : String
  pub slug : String

pub record Subject : Type 0 where
  pub id : ℕ
  pub faculty_id : ℕ
  pub name : String
  pub slug : String
  pub code : Option String
  pub description : Option String

-- A row of `ModeratorUniversityScope`, `ModeratorFacultyScope` or `ModeratorSubjectScope`.
pub record Scope : Type 0 where
  pub id : ℕ
  pub user_id : ℕ
  pub target_id : ℕ

-- The `details` of an audit entry: a text, or the text of an id or a number.
pub data Detail : Type 0 where
  text : String → Detail
  ident : ℕ → Detail

pub record AuditLog : Type 0 where
  pub action : String
  pub entity : String
  pub actor_id : Option ℕ
  pub entity_id : Option ℕ
  pub details : Option Detail

pub data TelegramEventType : Type 0 where
  email_verified email_verification_resent material_approved material_rejected : TelegramEventType
  material_revision_requested material_submitted_for_review password_changed : TelegramEventType
  password_reset_requested proposal_created proposal_approved proposal_rejected : TelegramEventType
  telegram_account_linked telegram_account_unlinked user_registered : TelegramEventType

-- The position in the enumeration, which tells its members apart.
abbrev pub type_code : TelegramEventType → ℕ
type_code email_verified = 0
type_code email_verification_resent = 1
type_code material_approved = 2
type_code material_rejected = 3
type_code material_revision_requested = 4
type_code material_submitted_for_review = 5
type_code password_changed = 6
type_code password_reset_requested = 7
type_code proposal_created = 8
type_code proposal_approved = 9
type_code proposal_rejected = 10
type_code telegram_account_linked = 11
type_code telegram_account_unlinked = 12
type_code user_registered = 13

pub data TelegramEventStatus : Type 0 where
  pending dispatched failed : TelegramEventStatus

abbrev pub is_dispatched : TelegramEventStatus → Bool
is_dispatched dispatched = true
is_dispatched _ = false

-- The JSON payloads that the callers of `create_event` build, without the display names of the
-- catalogue and the frontend link.
pub data Payload : Type 0 where
  of_user : (user_id : ℕ) → (email : String) → Payload
  of_link : (user_id : ℕ) → (email : String) → (username : Option String) → Payload
  of_material : (material_id : ℕ) → (title : String) → (subject_id owner : ℕ) → Payload
  of_review :
      (material_id : ℕ)
      → (title : String) → (subject_id owner reviewed_by : ℕ) → (reason note : Option String)
      → Payload
  of_proposal : (proposal_id : ℕ) → (proposal_type : String) → Payload
  of_decision :
      (proposal_id : ℕ)
      → (proposal_type proposed_name : String) → (reviewed_by : ℕ) → (note : Option String)
      → Payload

pub record TelegramEvent : Type 0 where
  pub id : ℕ
  pub event_type : TelegramEventType
  pub entity_type : Option String
  pub entity_id : Option ℕ
  pub recipient_user_id : ℕ
  pub recipient_role : UserRole
  pub delivery_channel : String
  pub payload : Payload
  pub status : TelegramEventStatus
  pub attempt_count : ℕ
  pub last_error : Option String
  pub dispatched_at : Option ℕ

pub record Hub : Type 0 where
  pub users : List User
  pub universities : List University
  pub faculties : List Faculty
  pub subjects : List Subject
  pub university_scopes : List Scope
  pub faculty_scopes : List Scope
  pub subject_scopes : List Scope
  pub audit_logs : List AuditLog
  pub events : List TelegramEvent
  pub next_id : ℕ

instance abbrev pub user_keyed : Keyed User
user_keyed = record { key = λ u. u.id }

instance abbrev pub university_keyed : Keyed University
university_keyed = record { key = λ u. u.id }

instance abbrev pub scope_keyed : Keyed Scope
scope_keyed = record { key = λ s. s.id }

instance abbrev pub faculty_keyed : Keyed Faculty
faculty_keyed = record { key = λ f. f.id }

instance abbrev pub subject_keyed : Keyed Subject
subject_keyed = record { key = λ s. s.id }

instance abbrev pub event_keyed : Keyed TelegramEvent
event_keyed = record { key = λ e. e.id }

abbrev user_id? : Option User → Option ℕ
user_id? none = none
user_id? (some u) = some u.id

-- `AuditService.log`
unfoldable pub audit : String → String → Option User → Option ℕ → Option Detail → Hub → Hub
audit action entity actor entity_id details h = record h {
  audit_logs =
      h.audit_logs
      ++ record {
        action = action;
        entity = entity;
        actor_id = user_id? actor;
        entity_id = entity_id;
        details = details;
      }
        ∷ [];
}
