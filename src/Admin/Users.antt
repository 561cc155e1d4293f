-- ===== src/Admin/Users.antt =====
-- The methods of `AdminService` over users (app/modules/admin/service.py,
-- repository.py).
pub mod Count
pub mod LastAdmin
use student_knowledge_hub.Prelude.{
  ℕ, ◌+◌, String, Bool, true, false, ◌&&◌, ◌||◌, Option, none, some, List, [], ◌∷◌, ◌++◌, not, ◌==◌,
  leb, any, count, get_row, put_row, delete_where, is_some, is_none, opt_eq, if◌then◌else◌, get_or,
}
use student_knowledge_hub.Service.{
  permission_denied, resource_not_found, validation_error, runtime_error, pure, skip, gets,
  or_raise, raise_if, modify, commit, request, ◌>>=◌, ◌>>◌,
}
use student_knowledge_hub.Hub.Tables.{
  UserRole, student, moderator, admin, is_admin, selected, User, Scope, Hub, Detail, text, ident,
  audit, user_keyed, university_keyed, faculty_keyed, subject_keyed, scope_keyed,
}
use student_knowledge_hub.Materials.Model.{Outside}
use student_knowledge_hub.Admin.Model.{AdminDb, Action, on_hub, invalidate_dashboard_cache}

-- `role.value`
abbrev pub role_value : UserRole → String
role_value student = "student"
role_value moderator = "moderator"
role_value admin = "admin"

abbrev pub is_student : UserRole → Bool
is_student student = true
is_student _ = false

abbrev pub is_active_admin : User → Bool
is_active_admin u = is_admin u.role && u.is_active

-- The count that `_ensure_not_last_active_admin` selects.
abbrev pub active_admin_count : Hub → ℕ
active_admin_count h = count is_active_admin h.users

-- `actor and actor.id == user.id`
abbrev pub is_self : Option User → User → Bool
is_self none user = false
is_self (some actor) user = actor.id == user.id

abbrev pub save_user : User → Hub → Hub
save_user user h = record h { users = put_row user h.users }

unfoldable pub ensure_not_last_active_admin : User → Action (Unit {0})
ensure_not_last_active_admin user = do
  active_admins ← gets (λ d. active_admin_count d.hub)
  raise_if (user.is_active && leb active_admins 1)
      (validation_error "At least one active admin must remain")

unfoldable pub update_user_role : ℕ → UserRole → Option User → Action User
unfolding ensure_not_last_active_admin
update_user_role user_id role actor = do
  found ← gets (λ d. get_row user_id d.hub.users)
  user ← or_raise found (resource_not_found "User not found")
  raise_if (is_self actor user && not (is_admin role))
      (permission_denied "Admin cannot demote their own account")
  if is_admin user.role && not (is_admin role) then ensure_not_last_active_admin user else skip
  let user' = record user { role = role }
  on_hub (save_user user')
  on_hub (audit "user_role_updated" "user" none (some user.id) (some (text (role_value role))))
  commit
  invalidate_dashboard_cache
  pure user'

-- The fields that the payload sets; `other_fields` are its keys outside `USER_UPDATE_FIELDS`.
pub record UserUpdate : Type 0 where
  pub full_name : Option String
  pub university_id : Option (Option ℕ)
  pub is_active : Option Bool
  pub is_verified : Option Bool
  pub other_fields : List String

abbrev is_nonempty : List String → Bool
is_nonempty [] = false
is_nonempty _ = true

-- `payload.get("university_id")`
abbrev pub university_of : Option (Option ℕ) → Option ℕ
university_of none = none
university_of (some u) = u

abbrev pub disables : Option Bool → Bool
disables (some false) = true
disables _ = false

-- `_ensure_university_exists`, of a university id that is given.
unfoldable pub ensure_university_exists : Option ℕ → Action (Unit {0})
ensure_university_exists none = skip
ensure_university_exists (some university_id) = do
  found ← gets (λ d. get_row university_id d.hub.universities)
  raise_if (is_none found) (resource_not_found "University not found")

-- The loop of `setattr`.
unfoldable pub set_user_fields : UserUpdate → User → User
set_user_fields p u = record u {
  full_name = get_or p.full_name u.full_name;
  university_id = get_or p.university_id u.university_id;
  is_active = get_or p.is_active u.is_active;
  is_verified = get_or p.is_verified u.is_verified;
}

unfoldable pub settle_university : Option ℕ → User → User
settle_university none u = u
settle_university (some _) u = record u {
  pending_university_name = none;
  university_status = selected;
}

unfoldable pub guard_disabling : UserUpdate → Option User → User → Action (Unit {0})
unfolding ensure_not_last_active_admin
guard_disabling p actor user =
    if disables p.is_active
    then (do
      raise_if (is_self actor user) (permission_denied "Admin cannot disable their own account")
      if is_admin user.role then ensure_not_last_active_admin user else skip)
    else skip

unfoldable pub update_user : ℕ → UserUpdate → Option User → Action User
unfolding set_user_fields settle_university
update_user user_id payload actor = do
  found ← gets (λ d. get_row user_id d.hub.users)
  user ← or_raise found (resource_not_found "User not found")
  raise_if (is_nonempty payload.other_fields)
      (validation_error "User update contains unsupported fields")
  ensure_university_exists (university_of payload.university_id)
  guard_disabling payload actor user
  let user' = settle_university (university_of payload.university_id) (set_user_fields payload user)
  on_hub (save_user user')
  on_hub (audit "user_updated" "user" none (some user.id) none)
  commit
  invalidate_dashboard_cache
  pure user'

abbrev no_update : UserUpdate
no_update = record {
  full_name = none;
  university_id = none;
  is_active = none;
  is_verified = none;
  other_fields = [];
}

unfoldable pub set_user_status : ℕ → Bool → Option User → Action User
unfolding update_user
set_user_status user_id is_active actor =
    update_user user_id (record no_update { is_active = some is_active }) actor

unfoldable pub verify_user : ℕ → Bool → Action User
unfolding update_user
verify_user user_id is_verified =
    update_user user_id (record no_update { is_verified = some is_verified }) none
