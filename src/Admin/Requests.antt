-- ===== src/Admin/Requests.antt =====
-- The routes of app/modules/admin/users_api.py that change users and scopes.
use student_knowledge_hub.Prelude.{ℕ, Bool, Option, List, [], ◌∷◌}
use student_knowledge_hub.Service.{skip, request, ◌>>◌}
use student_knowledge_hub.Hub.Tables.{
  UserRole, User, user_keyed, university_keyed, faculty_keyed, subject_keyed, scope_keyed,
}
use student_knowledge_hub.Materials.Model.{Outside}
use student_knowledge_hub.Admin.Model.{AdminDb, Action}
use student_knowledge_hub.Admin.Users.{
  UserUpdate, update_user_role, update_user, set_user_status, verify_user,
}
use student_knowledge_hub.Admin.Scopes.{
  ModeratorScopeCreate, add_moderator_scope, delete_moderator_scope,
}

-- The changes of users and scopes by an administrator, as data.
pub data AdminRequest : Type 0 where
  role_request : (user_id : ℕ) → UserRole → (actor : Option User) → AdminRequest
  update_request : (user_id : ℕ) → UserUpdate → (actor : Option User) → AdminRequest
  status_request : (user_id : ℕ) → (is_active : Bool) → (actor : Option User) → AdminRequest
  verify_request : (user_id : ℕ) → (is_verified : Bool) → AdminRequest
  add_scope_request : (user_id : ℕ) → ModeratorScopeCreate → AdminRequest
  delete_scope_request : (user_id scope_id : ℕ) → AdminRequest

-- The handler of a request, without the response that it builds.
unfoldable pub handle_admin : AdminRequest → Action (Unit {0})
handle_admin (role_request user_id role actor) = do update_user_role user_id role actor; skip
handle_admin (update_request user_id payload actor) = do update_user user_id payload actor; skip
handle_admin (status_request user_id is_active actor) = do
  set_user_status user_id is_active actor
  skip
handle_admin (verify_request user_id is_verified) = do verify_user user_id is_verified; skip
handle_admin (add_scope_request user_id payload) = add_moderator_scope user_id payload
handle_admin (delete_scope_request user_id scope_id) = delete_moderator_scope user_id scope_id

-- A run of requests: one that raises is answered by its error, and the next one is served.
unfoldable pub serve_admin : List AdminRequest → AdminDb → Outside → AdminDb × Outside
serve_admin [] d out = (d, out)
serve_admin (r ∷ rs) d out =
    let (_, d', out') = request (handle_admin r) d out in serve_admin rs d' out'
