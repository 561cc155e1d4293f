-- ===== src/Admin/Reports.antt =====
-- The methods of `AdminService` over reports of materials (app/modules/admin/service.py), and the
-- notifications of their authors (app/modules/notifications/service.py).
use mathlib.Core.List.{reverse}
use student_knowledge_hub.Prelude.{
  ℕ, ◌+◌, String, true, false, Option, none, some, List, [], ◌∷◌, ◌++◌, not, ◌==◌, filter, length,
  get_row, put_row, update_where,
}
use student_knowledge_hub.Service.{
  resource_not_found, pure, gets, or_raise, raise_if, modify, commit, ◌>>=◌, ◌>>◌,
}
use student_knowledge_hub.Hub.Tables.{User, text, Detail, audit}
use student_knowledge_hub.Admin.Model.{
  ReportStatus, resolved, dismissed, MaterialReport, Notification, AdminDb, report_keyed,
  notification_keyed, Action, on_hub, invalidate_dashboard_cache,
}

abbrev pub save_report : MaterialReport → Action (Unit {0})
save_report r = modify (λ d. record d { reports = put_row r d.reports })

unfoldable pub get_report : ℕ → Action MaterialReport
get_report report_id = do
  found ← gets (λ d. get_row report_id d.reports)
  or_raise found (resource_not_found "Report not found")

abbrev detail_of : Option String → Option Detail
detail_of none = none
detail_of (some t) = some (text t)

-- The status, note and time that `resolve_report` and `dismiss_report` set.
abbrev pub closed : ℕ → ReportStatus → Option String → MaterialReport → MaterialReport
closed now status resolution_note r = record r {
  status = status;
  resolution_note = resolution_note;
  reviewed_at = some now;
}

abbrev notify : MaterialReport → AdminDb → AdminDb
notify r d = record d {
  notifications =
      d.notifications
      ++ record {
        id = d.hub.next_id;
        user_id = r.reporter_id;
        title = "Your report was resolved";
        body_material_id = r.material_id;
        is_read = false;
      }
        ∷ [];
  hub = record d.hub { next_id = d.hub.next_id + 1 };
}

unfoldable pub resolve_report : ℕ → ℕ → Option String → Action MaterialReport
resolve_report now report_id resolution_note = do
  report ← get_report report_id
  save_report (closed now resolved resolution_note report)
  on_hub
      (audit "report_resolved" "material_report" none (some report.id) (detail_of resolution_note))
  modify (notify report)
  commit
  invalidate_dashboard_cache
  get_report report_id

unfoldable pub dismiss_report : ℕ → ℕ → Option String → Action MaterialReport
dismiss_report now report_id resolution_note = do
  report ← get_report report_id
  save_report (closed now dismissed resolution_note report)
  on_hub
      (audit "report_dismissed" "material_report" none (some report.id) (detail_of resolution_note))
  commit
  invalidate_dashboard_cache
  get_report report_id

-- `NotificationService`, latest first.
unfoldable pub list_notifications : User → AdminDb → List Notification
list_notifications user d = filter (λ n. n.user_id == user.id) (reverse d.notifications)

unfoldable pub mark_notification_read : ℕ → User → Action Notification
mark_notification_read notification_id user = do
  found ← gets (λ d. get_row notification_id d.notifications)
  n ← or_raise found (resource_not_found "Notification not found")
  raise_if (not (n.user_id == user.id)) (resource_not_found "Notification not found")
  let n' = record n { is_read = true }
  modify (λ d. record d { notifications = put_row n' d.notifications })
  commit
  pure n'

unfoldable pub mark_all_notifications_read : User → Action ℕ
unfolding list_notifications
mark_all_notifications_read user = do
  items ← gets (list_notifications user)
  modify (λ d. record d {
    notifications =
        update_where (λ n. n.user_id == user.id) (λ n. record n { is_read = true }) d.notifications;
  })
  commit
  pure (length items)
