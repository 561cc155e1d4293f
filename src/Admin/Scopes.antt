-- ===== src/Admin/Scopes.antt =====
-- The methods of `AdminService` over the scopes of moderators (app/modules/admin/service.py,
-- repository.py).
use student_knowledge_hub.Prelude.{
  ℕ, ◌+◌, Bool, true, false, ◌&&◌, ◌||◌, Option, none, some, List, [], ◌∷◌, ◌++◌, not, ◌==◌, any,
  get_row, delete_where, is_none, if◌then◌else◌,
}
use student_knowledge_hub.Service.{
  resource_not_found, validation_error, runtime_error, gets, or_raise, raise_if, commit, ◌>>=◌,
  ◌>>◌,
}
use student_knowledge_hub.Hub.Tables.{
  moderator, Scope, Hub, ident, audit, user_keyed, university_keyed, faculty_keyed, subject_keyed,
  scope_keyed,
}
use student_knowledge_hub.Admin.Model.{Action, on_hub, invalidate_dashboard_cache}
use student_knowledge_hub.Admin.Users.{is_student, save_user}

-- `ModeratorScopeCreate`
pub record ModeratorScopeCreate : Type 0 where
  pub university_id : Option ℕ
  pub faculty_id : Option ℕ
  pub subject_id : Option ℕ

abbrev given : Option ℕ → ℕ
given none = 0
given (some _) = 1

-- The unique constraints of the scope tables, and their foreign keys.
abbrev scope_conflict : ℕ → ℕ → List Scope → Bool
scope_conflict user_id target_id = any (λ s. s.user_id == user_id && s.target_id == target_id)

abbrev integrity_error : Bool → Action (Unit {0})
integrity_error b = raise_if b (runtime_error "IntegrityError")

abbrev new_scope : ℕ → ℕ → Hub → Scope
new_scope user_id target_id h = record { id = h.next_id; user_id = user_id; target_id = target_id }

abbrev add_university_scope : ℕ → ℕ → Hub → Hub
add_university_scope user_id i h = record h {
  university_scopes = h.university_scopes ++ new_scope user_id i h ∷ [];
  next_id = h.next_id + 1;
}

abbrev add_faculty_scope : ℕ → ℕ → Hub → Hub
add_faculty_scope user_id i h = record h {
  faculty_scopes = h.faculty_scopes ++ new_scope user_id i h ∷ [];
  next_id = h.next_id + 1;
}

abbrev add_subject_scope : ℕ → ℕ → Hub → Hub
add_subject_scope user_id i h = record h {
  subject_scopes = h.subject_scopes ++ new_scope user_id i h ∷ [];
  next_id = h.next_id + 1;
}

-- `ModeratorScopeRepository.add_scope`; of three ids that are missing, the last is a null that the
-- column does not take.
unfoldable pub add_scope : ℕ → Option ℕ → Option ℕ → Option ℕ → Action (Unit {0})
add_scope user_id (some i) _ _ = do
  d ← gets (λ d. d.hub)
  integrity_error
      (scope_conflict user_id i d.university_scopes || is_none (get_row i d.universities))
  on_hub (add_university_scope user_id i)
add_scope user_id none (some i) _ = do
  d ← gets (λ d. d.hub)
  integrity_error (scope_conflict user_id i d.faculty_scopes || is_none (get_row i d.faculties))
  on_hub (add_faculty_scope user_id i)
add_scope user_id none none (some i) = do
  d ← gets (λ d. d.hub)
  integrity_error (scope_conflict user_id i d.subject_scopes || is_none (get_row i d.subjects))
  on_hub (add_subject_scope user_id i)
add_scope user_id none none none = integrity_error true

unfoldable pub add_moderator_scope : ℕ → ModeratorScopeCreate → Action (Unit {0})
add_moderator_scope user_id payload = do
  found ← gets (λ d. get_row user_id d.hub.users)
  user ← or_raise found (resource_not_found "User not found")
  raise_if
      (not (given payload.university_id + given payload.faculty_id + given payload.subject_id == 1))
      (validation_error "Provide exactly one scope target")
  add_scope user_id payload.university_id payload.faculty_id payload.subject_id
  on_hub (if is_student user.role then save_user (record user { role = moderator }) else λ h. h)
  on_hub (audit "moderator_scope_added" "user_scope" none (some user_id) none)
  commit
  invalidate_dashboard_cache

abbrev pub is_owned : ℕ → Option Scope → Bool
is_owned user_id none = false
is_owned user_id (some s) = s.user_id == user_id

-- `scope and scope.user_id == user_id`, for `session.get(model, scope_id)`.
abbrev pub owns_scope : ℕ → ℕ → List Scope → Bool
owns_scope user_id scope_id scopes = is_owned user_id (get_row scope_id scopes)

abbrev without_scope : ℕ → List Scope → List Scope
without_scope scope_id = delete_where (λ s. s.id == scope_id)

-- The loop over the three tables, which ends at the first scope that is found.
unfoldable pub remove_scope : ℕ → ℕ → Hub → Hub
remove_scope user_id i h =
    if owns_scope user_id i h.university_scopes
    then record h { university_scopes = without_scope i h.university_scopes }
    else if owns_scope user_id i h.faculty_scopes
    then record h { faculty_scopes = without_scope i h.faculty_scopes }
    else if owns_scope user_id i h.subject_scopes
    then record h { subject_scopes = without_scope i h.subject_scopes }
    else h

unfoldable pub delete_moderator_scope : ℕ → ℕ → Action (Unit {0})
unfolding remove_scope
delete_moderator_scope user_id scope_id = do
  h ← gets (λ d. d.hub)
  raise_if
      (not (
        owns_scope user_id scope_id h.university_scopes
        || owns_scope user_id scope_id h.faculty_scopes
        || owns_scope user_id scope_id h.subject_scopes))
      (resource_not_found "Moderator scope not found")
  on_hub (remove_scope user_id scope_id)
  on_hub (audit "moderator_scope_deleted" "user_scope" none (some user_id) (some (ident scope_id)))
  commit
  invalidate_dashboard_cache
