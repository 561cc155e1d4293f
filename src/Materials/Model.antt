-- ===== src/Materials/Model.antt =====
-- The tables of the materials: app/modules/materials/enums.py, entities.py and review_models.py.
-- The related rows that a material is loaded with are looked up by their keys.
use student_knowledge_hub.Prelude.{ℕ, String, Bool, true, false, Option, some, List, Keyed}
use student_knowledge_hub.Hub.Tables.{Hub}

pub data FileKind : Type 0 where
  image document archive other : FileKind

abbrev pub is_image : FileKind → Bool
is_image image = true
is_image _ = false

pub data MaterialStatus : Type 0 where
  draft pending_review approved rejected : MaterialStatus

abbrev pub is_draft : MaterialStatus → Bool
is_draft draft = true
is_draft _ = false

abbrev pub is_pending : MaterialStatus → Bool
is_pending pending_review = true
is_pending _ = false

abbrev pub is_approved : MaterialStatus → Bool
is_approved approved = true
is_approved _ = false

abbrev pub is_rejected : MaterialStatus → Bool
is_rejected rejected = true
is_rejected _ = false

pub data MaterialType : Type 0 where
  book notes slides exam assignment lab cheatsheet other_type : MaterialType

pub data RejectReason : Type 0 where
  wrong_subject duplicate unreadable low_quality spam copyright_or_policy_issue : RejectReason
  other_reason : RejectReason

-- `reason.value`
abbrev pub reason_value : RejectReason → String
reason_value wrong_subject = "wrong_subject"
reason_value duplicate = "duplicate"
reason_value unreadable = "unreadable"
reason_value low_quality = "low_quality"
reason_value spam = "spam"
reason_value copyright_or_policy_issue = "copyright_or_policy_issue"
reason_value other_reason = "other"

pub data ReviewAction : Type 0 where
  submitted approved_action rejected_action resubmitted moved_subject : ReviewAction
  requested_revision withdrawn reported takedown : ReviewAction

pub record Material : Type 0 where
  pub id : ℕ
  pub title : String
  pub slug : String
  pub description : Option String
  pub material_type : MaterialType
  pub status : MaterialStatus
  pub subject_id : ℕ
  pub semesters : List ℕ
  pub uploaded_by : ℕ
  pub approved_by : Option ℕ
  pub last_reviewed_by : Option ℕ
  pub rejected_reason : Option RejectReason
  pub cover_file_id : Option ℕ
  pub primary_file_id : Option ℕ
  pub file_count : ℕ
  pub total_size : ℕ
  pub download_count : ℕ
  pub submitted_at : Option ℕ
  pub reviewed_at : Option ℕ
  pub deleted_at : Option ℕ
  pub updated_at : ℕ
  pub tags : List ℕ

pub record MaterialFile : Type 0 where
  pub id : ℕ
  pub material_id : ℕ
  pub storage_key : ℕ
  pub preview_storage_key : Option ℕ
  pub file_size : ℕ
  pub file_ext : String
  pub file_kind : FileKind
  pub file_order : ℕ
  pub is_previewable : Bool

pub record MaterialReviewLog : Type 0 where
  pub id : ℕ
  pub material_id : ℕ
  pub action : ReviewAction
  pub actor_id : ℕ
  pub note : Option String
  pub reason : Option String

pub record MaterialDownload : Type 0 where
  pub user_id : ℕ
  pub material_id : ℕ

-- The tables that the material and the moderation service read and write.
pub record Db : Type 0 where
  pub hub : Hub
  pub materials : List Material
  pub files : List MaterialFile
  pub tags : List ℕ
  pub review_logs : List MaterialReviewLog
  pub downloads : List MaterialDownload

-- What no transaction covers: the keys of the stored files, and whether each cached value is there:
-- `materials:stats_summary`, `materials:trending_ids` and the keys under `admin:dashboard_`.
pub record Outside : Type 0 where
  pub stored : List ℕ
  pub stats_summary_cached : Bool
  pub trending_ids_cached : Bool
  pub dashboard_cached : Bool

instance abbrev pub material_keyed : Keyed Material
material_keyed = record { key = λ m. m.id }

instance abbrev pub file_keyed : Keyed MaterialFile
file_keyed = record { key = λ f. f.id }

-- `Material.mark_deleted`
unfoldable pub mark_deleted : ℕ → Material → Material
mark_deleted now m = record m { deleted_at = some now }
