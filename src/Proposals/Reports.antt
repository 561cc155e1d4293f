-- ===== src/Proposals/Reports.antt =====
-- Reports on the catalogue (app/modules/catalog_proposals/service.py).
use text.Mathlib.Text.{◌==◌ as str_eq}
use mathlib.Core.List.{reverse}
use student_knowledge_hub.Prelude.{
  ℕ, ◌+◌, ◌-◌, ◌*◌, String, Bool, true, ◌&&◌, Option, none, some, List, [], ◌∷◌, ◌++◌, take, drop,
  ◌==◌, filter, length, get_row, put_row, if◌then◌else◌,
}
use student_knowledge_hub.Service.{
  resource_not_found, validation_error, pure, raise, gets, or_raise, modify, commit, ◌>>=◌, ◌>>◌,
}
use student_knowledge_hub.Hub.Tables.{
  User, University, Faculty, Subject, university_keyed, faculty_keyed, subject_keyed,
}
use student_knowledge_hub.Admin.Model.{ReportStatus, open_report, resolved, dismissed}
use student_knowledge_hub.Proposals.Model.{
  CatalogReport, ProposalDb, Action, on_hub, catalog_report_keyed,
}

pub record CatalogReportCreate : Type 0 where
  pub entity_type : String
  pub entity_id : ℕ
  pub reason : String
  pub details : Option String

abbrev map_name : {A : Type 0} → (A → String) → Option A → Option String
map_name f none = none
map_name f (some a) = some (f a)

abbrev status_code : ReportStatus → ℕ
status_code open_report = 0
status_code resolved = 1
status_code dismissed = 2

abbrev has_status : Option ReportStatus → CatalogReport → Bool
has_status none r = true
has_status (some s) r = status_code r.status == status_code s

abbrev has_entity_type : Option String → CatalogReport → Bool
has_entity_type none r = true
has_entity_type (some t) r = if str_eq t "" then true else str_eq r.entity_type t

-- The rows that the filters leave, latest first.
abbrev pub matching : Option ReportStatus → Option String → ProposalDb → List CatalogReport
matching status entity_type d =
    filter (λ r. has_status status r && has_entity_type entity_type r) (reverse d.catalog_reports)

-- The rows of a page, latest first, with the number of rows of all pages.
unfoldable pub list_catalog_reports :
    ℕ → ℕ → Option ReportStatus → Option String → ProposalDb → List CatalogReport × ℕ
list_catalog_reports page page_size status entity_type d =
    let rows = matching status entity_type d in
    (take page_size (drop ((page - 1) * page_size) rows), length rows)

abbrev pub opened_report : ℕ → String → CatalogReportCreate → User → CatalogReport
opened_report new_id entity_name payload user = record {
  id = new_id;
  entity_type = payload.entity_type;
  entity_id = payload.entity_id;
  entity_name = entity_name;
  reporter_id = user.id;
  reviewer_id = none;
  reason = payload.reason;
  details = payload.details;
  status = open_report;
  resolution_note = none;
  reviewed_at = none;
}

module _ {E : Type 0} where
  -- The name of what a report is about.
  abbrev pub reported_name : String → ℕ → Action E String
  reported_name entity_type entity_id = do
    h ← gets (λ d. d.hub)
    if str_eq entity_type "university"
        then or_raise (map_name (λ (u : University). u.name) (get_row entity_id h.universities))
            (resource_not_found "University not found")
        else if str_eq entity_type "faculty"
        then or_raise (map_name (λ (f : Faculty). f.name) (get_row entity_id h.faculties))
            (resource_not_found "Faculty not found")
        else if str_eq entity_type "subject"
        then or_raise (map_name (λ (s : Subject). s.name) (get_row entity_id h.subjects))
            (resource_not_found "Subject not found")
        else raise (validation_error "Invalid entity type")

  unfoldable pub create_catalog_report : CatalogReportCreate → User → Action E CatalogReport
  create_catalog_report payload user = do
    entity_name ← reported_name payload.entity_type payload.entity_id
    new_id ← gets (λ d. d.hub.next_id)
    let report = opened_report new_id entity_name payload user
    modify (λ d. record d { catalog_reports = d.catalog_reports ++ report ∷ [] })
    on_hub (λ h. record h { next_id = h.next_id + 1 })
    commit
    pure report

  unfoldable pub get_catalog_report : ℕ → Action E CatalogReport
  get_catalog_report report_id = do
    found ← gets (λ d. get_row report_id d.catalog_reports)
    or_raise found (resource_not_found "Report not found")

  abbrev pub close_catalog_report :
      ReportStatus → ℕ → ℕ → User → Option String → Action E CatalogReport
  close_catalog_report status now report_id reviewer resolution_note = do
    r ← get_catalog_report report_id
    let r' = record r {
      status = status;
      reviewer_id = some reviewer.id;
      resolution_note = resolution_note;
      reviewed_at = some now;
    }
    modify (λ d. record d { catalog_reports = put_row r' d.catalog_reports })
    commit
    pure r'

  unfoldable pub resolve_catalog_report : ℕ → ℕ → User → Option String → Action E CatalogReport
  resolve_catalog_report now report_id reviewer resolution_note =
      close_catalog_report resolved now report_id reviewer resolution_note

  unfoldable pub dismiss_catalog_report : ℕ → ℕ → User → Option String → Action E CatalogReport
  dismiss_catalog_report now report_id reviewer resolution_note =
      close_catalog_report dismissed now report_id reviewer resolution_note
