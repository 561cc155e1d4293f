-- ===== src/Admin/Model.antt =====
-- The tables that `AdminService` works on, and the audit log and dashboard cache around each change.
use student_knowledge_hub.Prelude.{ℕ, String, Bool, false, Option, List, Keyed}
use student_knowledge_hub.Service.{Handler, modify, modify_outside}
use student_knowledge_hub.Hub.Tables.{Hub}
use student_knowledge_hub.Materials.Model.{Outside}

pub data ReportStatus : Type 0 where
  open_report resolved dismissed : ReportStatus

pub record MaterialReport : Type 0 where
  pub id : ℕ
  pub material_id : ℕ
  pub reporter_id : ℕ
  pub reviewer_id : Option ℕ
  pub reason : String
  pub details : Option String
  pub status : ReportStatus
  pub resolution_note : Option String
  pub reviewed_at : Option ℕ

-- The body of the one kind of notification is "Report for material {id} has been resolved."
pub record Notification : Type 0 where
  pub id : ℕ
  pub user_id : ℕ
  pub title : String
  pub body_material_id : ℕ
  pub is_read : Bool

pub record AdminDb : Type 0 where
  pub hub : Hub
  pub reports : List MaterialReport
  pub notifications : List Notification

instance abbrev pub report_keyed : Keyed MaterialReport
report_keyed = record { key = λ r. r.id }

instance abbrev pub notification_keyed : Keyed Notification
notification_keyed = record { key = λ n. n.id }

abbrev pub Action : Type 0 → Type 0
Action = Handler AdminDb Outside

-- A change of the shared tables.
abbrev pub on_hub : (Hub → Hub) → Action (Unit {0})
on_hub f = modify (λ d. record d { hub = f d.hub })

-- `_invalidate_dashboard_cache`
abbrev pub invalidate_dashboard_cache : Action (Unit {0})
invalidate_dashboard_cache = modify_outside (λ o. record o { dashboard_cached = false })
