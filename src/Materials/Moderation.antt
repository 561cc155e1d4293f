-- ===== src/Materials/Moderation.antt =====
-- app/modules/moderation/service.py: the decisions of moderators, each within their scope.
pub mod Rights
pub mod Decisions
use mathlib.Core.List.{reverse}
use student_knowledge_hub.Prelude.{
  ℕ, String, Bool, ◌||◌, ◌&&◌, Option, none, some, List, map, not, ◌==◌, ltb, contains, filter,
  take, is_some, get_row, if◌then◌else◌,
}
use student_knowledge_hub.Service.{
  resource_not_found, permission_denied, conflict_error, pure, skip, gets, or_raise, raise_if,
  commit, ◌>>=◌, ◌>>◌,
}
use student_knowledge_hub.Hub.Tables.{
  is_admin, User, Faculty, Scope, Hub, TelegramEventType, material_approved, material_rejected,
  material_revision_requested, Payload, subject_keyed, faculty_keyed, text, ident, audit,
}
use student_knowledge_hub.Hub.Events.{enqueue_material_owner_event}
use student_knowledge_hub.Materials.Model.{
  approved, rejected, is_pending, RejectReason, reason_value, ReviewAction, approved_action,
  rejected_action, moved_subject, requested_revision, Material, MaterialReviewLog, Db,
}
use student_knowledge_hub.Materials.Common.{
  Action, find_material, save_material, create_log, on_hub, invalidate_material_caches,
}
use student_knowledge_hub.Materials.Cleanup.{faculty_of, is_listed}

-- `set(select(Scope.target).where(Scope.user_id == actor.id))`
abbrev pub targets_of : ℕ → List Scope → List ℕ
targets_of user_id scopes =
    map (λ (s : Scope). s.target_id) (filter (λ s. s.user_id == user_id) scopes)

-- The `allowed` of `_assert_scope`.
unfoldable pub in_scope : Hub → User → ℕ → ℕ → ℕ → Bool
in_scope h actor subject_id faculty_id university_id =
    contains subject_id (targets_of actor.id h.subject_scopes)
    || contains faculty_id (targets_of actor.id h.faculty_scopes)
    || contains university_id (targets_of actor.id h.university_scopes)

unfoldable pub assert_scope : User → Material → Action (Unit {0})
unfolding in_scope
assert_scope actor m = if is_admin actor.role then skip else do
  found_subject ← gets (λ d. get_row m.subject_id d.hub.subjects)
  subject ← or_raise found_subject (resource_not_found "Subject not found")
  found_faculty ← gets (λ d. get_row subject.faculty_id d.hub.faculties)
  faculty ← or_raise found_faculty (resource_not_found "Faculty not found")
  allowed ← gets (λ d. in_scope d.hub actor subject.id subject.faculty_id faculty.university_id)
  raise_if (not allowed) (permission_denied "Material is outside your moderation scope")

unfoldable pub get_scoped_material : ℕ → User → Action Material
unfolding assert_scope
get_scoped_material material_id actor = do
  found ← gets (find_material material_id)
  m ← or_raise found (resource_not_found "Material not found")
  raise_if (is_some m.deleted_at) (resource_not_found "Material not found")
  assert_scope actor m
  pure m

-- One of the predicates that `_apply_scope` joins by `or_`.
abbrev scope_covers : Hub → User → Material → Option Faculty → Bool
scope_covers h actor m none = Bool.false
scope_covers h actor m (some faculty) =
    contains faculty.university_id (targets_of actor.id h.university_scopes)
    || contains faculty.id (targets_of actor.id h.faculty_scopes)
    || contains m.subject_id (targets_of actor.id h.subject_scopes)

-- The condition of `_apply_scope`. A predicate over an empty set of ids is left out of the `or_`,
-- where it would be false; with none left the query asks for an id that no material has.
unfoldable pub apply_scope : Hub → User → Material → Bool
unfolding faculty_of
apply_scope h actor m =
    if is_admin actor.role then Bool.true else scope_covers h actor m (faculty_of m.subject_id h)

-- The condition of the query of `list_pending`.
unfoldable pub is_pending_for : Hub → User → Material → Bool
unfolding is_listed apply_scope
is_pending_for h actor m = is_listed h m && is_pending m.status && apply_scope h actor m

abbrev pub pending_page_size : ℕ
pending_page_size = 1000

-- The first page, in the order of creation.
unfoldable pub list_pending : User → Db → List Material
unfolding is_pending_for
list_pending actor d = take pending_page_size (filter (is_pending_for d.hub actor) d.materials)

abbrev review_payload : Material → User → Option String → Option String → Payload
review_payload m actor reason note =
    Payload.of_review m.id m.title m.subject_id m.uploaded_by actor.id reason note

unfoldable pub approve : ℕ → ℕ → User → Action (Option Material)
unfolding save_material create_log on_hub invalidate_material_caches
approve now material_id actor = do
  m ← get_scoped_material material_id actor
  raise_if (not (is_pending m.status)) (conflict_error "Only pending materials can be approved")
  raise_if (ltb m.file_count 1) (conflict_error "Material must have files before approval")
  save_material now (record m {
    status = approved;
    approved_by = some actor.id;
    last_reviewed_by = some actor.id;
    reviewed_at = some now;
    rejected_reason = none;
  })
  create_log m.id approved_action actor.id none none
  on_hub (audit "material_approved" "material" (some actor) (some m.id) none)
  on_hub (
      enqueue_material_owner_event material_approved m.id m.uploaded_by
        (review_payload m actor none none))
  commit
  invalidate_material_caches
  gets (find_material m.id)

pub record RejectRequest : Type 0 where
  pub reason : RejectReason
  pub note : Option String

-- The common body of `reject` and `request_revision`, which differ in the names that they record.
abbrev pub turn_down :
    String
    → ReviewAction
    → String
    → TelegramEventType
    → ℕ
    → ℕ
    → RejectRequest
    → User
    → Action (Option Material)
turn_down refusal action audit_action event now material_id payload actor = do
  m ← get_scoped_material material_id actor
  raise_if (not (is_pending m.status)) (conflict_error refusal)
  save_material now (record m {
    status = rejected;
    rejected_reason = some payload.reason;
    last_reviewed_by = some actor.id;
    reviewed_at = some now;
  })
  create_log m.id action actor.id payload.note (some (reason_value payload.reason))
  on_hub (
      audit audit_action "material" (some actor) (some m.id)
        (some (text (reason_value payload.reason))))
  on_hub (
      enqueue_material_owner_event event m.id m.uploaded_by
        (review_payload m actor (some (reason_value payload.reason)) payload.note))
  commit
  invalidate_material_caches
  gets (find_material m.id)

unfoldable pub reject : ℕ → ℕ → RejectRequest → User → Action (Option Material)
unfolding save_material create_log on_hub invalidate_material_caches
reject =
    turn_down "Only pending materials can be rejected" rejected_action "material_rejected"
      material_rejected

unfoldable pub request_revision : ℕ → ℕ → RejectRequest → User → Action (Option Material)
unfolding save_material create_log on_hub invalidate_material_caches
request_revision =
    turn_down "Only pending materials can request revision" requested_revision
      "material_revision_requested" material_revision_requested

unfoldable pub move_subject : ℕ → ℕ → ℕ → Option String → User → Action (Option Material)
unfolding save_material create_log on_hub invalidate_material_caches
move_subject now material_id subject_id note actor = do
  m ← get_scoped_material material_id actor
  found ← gets (λ d. get_row subject_id d.hub.subjects)
  or_raise found (resource_not_found "Subject not found")
  save_material now (record m {
    subject_id = subject_id;
    last_reviewed_by = some actor.id;
    reviewed_at = some now;
  })
  create_log m.id moved_subject actor.id note none
  on_hub
      (audit "material_subject_moved" "material" (some actor) (some m.id) (some (ident subject_id)))
  commit
  invalidate_material_caches
  gets (find_material m.id)

-- The review log of a material, latest first.
unfoldable pub history : ℕ → User → Action (List MaterialReviewLog)
unfolding get_scoped_material
history material_id actor = do
  get_scoped_material material_id actor
  gets (λ d. filter (λ l. l.material_id == material_id) (reverse d.review_logs))
