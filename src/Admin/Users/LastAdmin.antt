-- ===== src/Admin/Users/LastAdmin.antt =====
-- Requests of administrators, and the accounts of active administrators that they leave.
use student_knowledge_hub.Prelude.{
  ℕ, ◌≤◌, false, ◌&&◌, Option, none, some, List, [], ◌∷◌, not, ◌==◌, ==_iff, leb, count, get_row,
  put_row, find_sound, Option-cases, Bool-cases, inl, inr, ◌≡◌, refl, subst, arith,
}
use student_knowledge_hub.Service.{Session, Result, ok, err, is_ok, skip, continue, ◌>>◌, request}
use student_knowledge_hub.Hub.Tables.{UserRole, moderator, User, audit, user_keyed}
use student_knowledge_hub.Materials.Model.{Outside}
use student_knowledge_hub.Admin.Model.{AdminDb, Action}
use student_knowledge_hub.Admin.Users.{
  is_student, is_active_admin, update_user_role, update_user, set_user_status, verify_user,
  UserUpdate, no_update, guard_disabling, ensure_university_exists, settle_university,
  set_user_fields, university_of,
}
use student_knowledge_hub.Admin.Scopes.{
  ModeratorScopeCreate, add_moderator_scope, delete_moderator_scope, add_scope, remove_scope,
}
use student_knowledge_hub.Admin.Requests.{
  AdminRequest, role_request, update_request, status_request, verify_request, add_scope_request,
  delete_scope_request, handle_admin, serve_admin,
}
use student_knowledge_hub.Admin.Users.Count.{IsUniqueKey, count-put_row, put_row-IsUniqueKey}

-- The ids are unique, and there is an active administrator.
pub record HasAdmin (users : List User) : Type 0 where
  pub unique : IsUniqueKey users
  pub remains : 1 ≤ count is_active_admin users

-- One user's row is replaced, and if that takes an active administrator away, there is another.
replaced-HasAdmin :
    (user user' : User) (user_id : ℕ) (users : List User)
    → HasAdmin users
    → get_row user_id users ≡ some user
    → user'.id ≡ user.id
    → (is_active_admin user && not (is_active_admin user') && leb (count is_active_admin users) 1)
      ≡ false
    → HasAdmin (put_row user' users)
replaced-HasAdmin user user' user_id users h found same guard =
    let is_it : user.id ≡ user_id =
      (==_iff _ _).0 (find_sound (λ u. u.id == user_id) users found) in
    let at : get_row user'.id users ≡ some user =
      subst (λ (i : ℕ). get_row i users ≡ some user) (cc (same, is_it)) found in
    let counted = count-put_row is_active_admin user user' users (h.unique user'.id) at in
    record {
      unique = put_row-IsUniqueKey user' users h.unique;
      remains = ground (arith, counted, h.remains);
    }

module _ (d : AdminDb) (out : Outside) (h : HasAdmin d.hub.users) where
  role-HasAdmin :
      (user_id : ℕ) (role : UserRole) (actor : Option User)
      → HasAdmin (request (update_user_role user_id role actor) d out).1.hub.users
  unfolding update_user_role audit
  role-HasAdmin user_id role actor = elim (Option-cases (get_row user_id d.hub.users)) [
    | inl lost ↦
        let same : (request (update_user_role user_id role actor) d out).1 ≡ d = ground arith in
        rw same h
    | inr (user, found) ↦
        elim (Bool-cases (is_ok (request (update_user_role user_id role actor) d out).0)) [
          | inr bad ↦
              let same : (request (update_user_role user_id role actor) d out).1 ≡ d =
                ground arith in
              rw same h
          | inl good ↦
              let user' : User = record user { role = role } in
              let same : (request (update_user_role user_id role actor) d out).1.hub.users
                  ≡ put_row user' d.hub.users =
                ground arith in
              rw same (replaced-HasAdmin user user' user_id d.hub.users h found refl (ground arith))
        ]
  ]

  update-HasAdmin :
      (user_id : ℕ) (p : UserUpdate) (actor : Option User)
      → HasAdmin (request (update_user user_id p actor) d out).1.hub.users
  unfolding update_user audit guard_disabling ensure_university_exists
  update-HasAdmin user_id p actor = elim (Option-cases (get_row user_id d.hub.users)) [
    | inl lost ↦
        let same : (request (update_user user_id p actor) d out).1 ≡ d = ground arith in rw same h
    | inr (user, found) ↦
        elim (Bool-cases (is_ok (request (update_user user_id p actor) d out).0)) [
          | inr bad ↦
              let same : (request (update_user user_id p actor) d out).1 ≡ d = ground arith in
              rw same h
          | inl good ↦
              let user' : User =
                settle_university (university_of p.university_id) (set_user_fields p user) in
              let same : (request (update_user user_id p actor) d out).1.hub.users
                  ≡ put_row user' d.hub.users =
                ground arith in
              rw same (
                replaced-HasAdmin user user' user_id d.hub.users h found (ground arith)
                  (ground arith))
        ]
  ]

  scope-HasAdmin :
      (user_id : ℕ) (p : ModeratorScopeCreate)
      → HasAdmin (request (add_moderator_scope user_id p) d out).1.hub.users
  unfolding add_moderator_scope add_scope audit
  scope-HasAdmin user_id p = elim (Option-cases (get_row user_id d.hub.users)) [
    | inl lost ↦
        let same : (request (add_moderator_scope user_id p) d out).1 ≡ d = ground arith in rw same h
    | inr (user, found) ↦
        elim (Bool-cases (is_ok (request (add_moderator_scope user_id p) d out).0)) [
          | inr bad ↦
              let same : (request (add_moderator_scope user_id p) d out).1 ≡ d = ground arith in
              rw same h
          | inl good ↦ elim (Bool-cases (is_student user.role)) [
            | inr other ↦
                let same : (request (add_moderator_scope user_id p) d out).1.hub.users
                    ≡ d.hub.users =
                  ground arith in
                rw same h
            | inl one ↦
                let user' : User = record user { role = moderator } in
                let same : (request (add_moderator_scope user_id p) d out).1.hub.users
                    ≡ put_row user' d.hub.users =
                  ground arith in
                rw same
                  (replaced-HasAdmin user user' user_id d.hub.users h found refl (ground arith))
          ]
        ]
  ]

  removal-HasAdmin :
      (user_id scope_id : ℕ)
      → HasAdmin (request (delete_moderator_scope user_id scope_id) d out).1.hub.users
  unfolding delete_moderator_scope remove_scope audit
  removal-HasAdmin user_id scope_id =
      let same : (request (delete_moderator_scope user_id scope_id) d out).1.hub.users
          ≡ d.hub.users =
        ground arith in
      rw same h

  skipped :
      {A : Type 0} (m : Action A)
      → HasAdmin (request m d out).1.hub.users
      → HasAdmin (request (m >> skip) d out).1.hub.users
  skipped {A} m h' =
      subst (λ (s : Session AdminDb Outside). HasAdmin s.saved.hub.users) (continue_skip _ _) h'
    where
      continue_skip :
          (r : Result A) (s : Session AdminDb Outside) → s ≡ (continue r (λ _. skip) s).1
      continue_skip (ok a) s = refl
      continue_skip (err e) s = refl

  request-HasAdmin : (r : AdminRequest) → HasAdmin (request (handle_admin r) d out).1.hub.users
  unfolding handle_admin set_user_status verify_user
  request-HasAdmin (role_request i role actor) =
      skipped (update_user_role i role actor) (role-HasAdmin i role actor)
  request-HasAdmin (update_request i p actor) =
      skipped (update_user i p actor) (update-HasAdmin i p actor)
  request-HasAdmin (status_request i b actor) =
      skipped (update_user i (record no_update { is_active = some b }) actor)
        (update-HasAdmin i (record no_update { is_active = some b }) actor)
  request-HasAdmin (verify_request i b) =
      skipped (update_user i (record no_update { is_verified = some b }) none)
        (update-HasAdmin i (record no_update { is_verified = some b }) none)
  request-HasAdmin (add_scope_request i p) = scope-HasAdmin i p
  request-HasAdmin (delete_scope_request i j) = removal-HasAdmin i j

-- Whatever the administrators ask for, in any order, granted or refused: where ids are unique and an
-- active administrator is there before, both are so afterwards.
pub serve_admin-HasAdmin :
    (rs : List AdminRequest) (d : AdminDb) (out : Outside)
    → HasAdmin d.hub.users
    → HasAdmin (serve_admin rs d out).0.hub.users
unfolding serve_admin
serve_admin-HasAdmin [] d out h = h
serve_admin-HasAdmin (r ∷ rs) d out h =
    let a = request (handle_admin r) d out in
    serve_admin-HasAdmin rs a.1 a.2 (request-HasAdmin d out h r)
