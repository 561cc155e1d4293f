-- ===== src/Materials/Moderation/Rights.antt =====
-- Who may moderate which material: the check that guards each decision, and the query that lists
-- what is pending.
use student_knowledge_hub.Prelude.{
  ℕ, true, none, some, ◌==◌, ==_iff, get_row, find_sound, Option-cases, Bool-cases, inl, inr, ◌≡◌,
  ◌↔◌, ◌⊎◌, refl, ap, arith,
}
use student_knowledge_hub.Service.{Session, Result, ok, err, AppError}
use student_knowledge_hub.Hub.Tables.{
  is_admin, User, Faculty, Subject, Hub, subject_keyed, faculty_keyed,
}
use student_knowledge_hub.Materials.Model.{is_pending, Material, Db, Outside}
use student_knowledge_hub.Materials.Common.{find_material}
use student_knowledge_hub.Materials.Moderation.{
  in_scope, assert_scope, get_scoped_material, is_pending_for,
}

-- The rows that the scope check reaches for a material.
pub record Located (h : Hub) (m : Material) : Type 0 where
  pub subject : Subject
  pub faculty : Faculty
  pub subject_found : get_row m.subject_id h.subjects ≡ some subject
  pub faculty_found : get_row subject.faculty_id h.faculties ≡ some faculty

-- The actor may decide on the material, as the specification says it: an admin anywhere, a
-- moderator in a subject, a faculty or a university of theirs.
abbrev pub MayModerate : (h : Hub) → User → (m : Material) → Type 0
MayModerate h actor m =
    (is_admin actor.role ≡ true)
    ⊎ ((l : Located h m) × (in_scope h actor l.subject.id l.subject.faculty_id
            l.faculty.university_id
          ≡ true))

module _ (actor : User) (m : Material) (s : Session Db Outside) {s' : Session Db Outside} where
  assert_scope_sound :
      assert_scope actor m s ≡ (ok tt, s') → (s' ≡ s) × MayModerate s.work.hub actor m
  unfolding assert_scope
  assert_scope_sound h = elim (Bool-cases (is_admin actor.role)) [
    | inl a ↦ (ground arith, inl a)
    | inr n ↦ elim (Option-cases (get_row m.subject_id s.work.hub.subjects)) [
      | inl e ↦ absurd (ground arith)
      | inr (subject, e) ↦ elim (Option-cases (get_row subject.faculty_id s.work.hub.faculties)) [
        | inl e' ↦ absurd (ground arith)
        | inr (faculty, e') ↦ (
          ground arith,
          inr (
            record { subject = subject; faculty = faculty; subject_found = e; faculty_found = e' },
            ground arith,
          ),
        )
      ]
    ]
  ]

module _ (material_id : ℕ) (actor : User) (s : Session Db Outside) where
  -- The check passes for what is there, not deleted, and in the actor's hands; it changes nothing.
  pub get_scoped_material_sound :
      {m : Material} {s' : Session Db Outside}
      → get_scoped_material material_id actor s ≡ (ok m, s')
      → (s' ≡ s)
        × (find_material material_id s.work ≡ some m)
        × (m.deleted_at ≡ none)
        × MayModerate s.work.hub actor m
  unfolding get_scoped_material
  get_scoped_material_sound {m} {s'} h =
      let found : find_material material_id s.work ≡ some m = ground arith in
      let scope = assert_scope_sound actor m s {s' = s'} (ground arith) in
      (scope.0, found, ground arith, scope.1)

  pub get_scoped_material_complete :
      (m : Material)
      → find_material material_id s.work ≡ some m
      → m.deleted_at ≡ none
      → MayModerate s.work.hub actor m
      → get_scoped_material material_id actor s ≡ (ok m, s)
  unfolding get_scoped_material
  get_scoped_material_complete m f e (inl a) = ground arith
  get_scoped_material_complete m f e (inr (l, a)) = ground (arith, l.subject_found, l.faculty_found)

-- A moderator finds in the pending list what they may decide on, and nothing else: for a material
-- whose subject and faculty are there, the query's condition holds exactly when the material is not
-- deleted, is pending, and the check that guards `approve` and `reject` lets the actor pass.
pub is_pending_for_iff :
    (h : Hub) (actor : User) (m : Material) (l : Located h m)
    → (is_pending_for h actor m ≡ true)
      ↔ ((m.deleted_at ≡ none) × (is_pending m.status ≡ true) × MayModerate h actor m)
unfolding is_pending_for in_scope
is_pending_for_iff h actor m l = (
  λ p. (
    ground (arith, l.subject_found, l.faculty_found),
    ground (arith, l.subject_found, l.faculty_found),
    rights p,
  ),
  λ r. listed r.0 r.1 r.2,
)
  where
    same_faculty : l.faculty.id ≡ l.subject.faculty_id
    same_faculty =
        (==_iff _ _).0 (find_sound (λ f. f.id == l.subject.faculty_id) h.faculties l.faculty_found)

    same_subject : l.subject.id ≡ m.subject_id
    same_subject =
        (==_iff _ _).0 (find_sound (λ s. s.id == m.subject_id) h.subjects l.subject_found)

    rights : is_pending_for h actor m ≡ true → MayModerate h actor m
    rights p = elim (Bool-cases (is_admin actor.role)) [
      | inl a ↦ inl a
      | inr n ↦
          inr (l, ground (arith, l.subject_found, l.faculty_found, same_faculty, same_subject))
    ]

    listed :
        m.deleted_at ≡ none
        → is_pending m.status ≡ true
        → MayModerate h actor m
        → is_pending_for h actor m ≡ true
    listed d p (inl a) = ground (arith, l.subject_found, l.faculty_found)
    listed d p (inr (l', a)) = ground (
      arith, l.subject_found, l.faculty_found, l'.subject_found, l'.faculty_found, same_faculty,
      same_subject,
    )

module _ (material_id : ℕ) (actor : User) (s : Session Db Outside) where
  -- A refusal changes nothing either.
  get_scoped_material-refused : (get_scoped_material material_id actor s).1 ≡ s
  unfolding get_scoped_material
  get_scoped_material-refused = ground arith

  -- The check hands over the material, with all that it has made sure of, or raises.
  pub get_scoped_material-cases :
      ((m : Material) × (get_scoped_material material_id actor s ≡ (ok m, s))
        × (find_material material_id s.work ≡ some m)
        × (m.deleted_at ≡ none)
        × MayModerate s.work.hub actor m)
      ⊎ ((e : AppError) × (get_scoped_material material_id actor s ≡ (err e, s)))
  get_scoped_material-cases = go _ refl
    where
      go :
          (r : Result Material × Session Db Outside)
          → get_scoped_material material_id actor s ≡ r
          → ((m : Material) × (get_scoped_material material_id actor s ≡ (ok m, s))
              × (find_material material_id s.work ≡ some m)
              × (m.deleted_at ≡ none)
              × MayModerate s.work.hub actor m)
            ⊎ ((e : AppError) × (get_scoped_material material_id actor s ≡ (err e, s)))
      go (ok m, s') h =
          let facts = get_scoped_material_sound material_id actor s h in
          inl (m, cc (facts.0), facts.1, facts.2, facts.3)
      go (err e, s') h = inr (
        e,
        cc (get_scoped_material-refused, ap (λ (p : Result Material × Session Db Outside). p.1) h),
      )
