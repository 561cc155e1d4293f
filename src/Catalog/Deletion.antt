-- ===== src/Catalog/Deletion.antt =====
-- The deletions of `CatalogService` (app/modules/catalog/service.py), with what the relationships and
-- foreign keys of app/modules/catalog/models.py, app/modules/users/models.py,
-- app/modules/admin/scope_models.py and app/modules/materials/entities.py take along.
use student_knowledge_hub.Prelude.{
  ℕ, Bool, ◌&&◌, Option, none, some, List, not, ◌==◌, any, filter, map, if◌then◌else◌,
}
use student_knowledge_hub.Service.{Handler, gets, raise_if, modify, commit, ◌>>=◌, ◌>>◌}
use student_knowledge_hub.Hub.Tables.{User, University, Faculty, Subject, Scope, Hub}
use student_knowledge_hub.Materials.Model.{Material, Db}
use student_knowledge_hub.Catalog.Tree.{get_university, get_faculty, get_subject}
use student_knowledge_hub.Catalog.Constraints.{integrity_error}

abbrev cleared : (ℕ → Bool) → Option ℕ → Option ℕ
cleared gone none = none
cleared gone (some i) = if gone i then none else some i

abbrev pub clear_university : (ℕ → Bool) → User → User
clear_university gone u = record u { university_id = cleared gone u.university_id }

-- The rows that go with universities, with faculties and with subjects.
abbrev pub faculty_of : (ℕ → Bool) → List Faculty → ℕ → Bool
faculty_of gone fs i = any (λ (f : Faculty). f.id == i && gone f.university_id) fs

abbrev pub subject_of : (ℕ → Bool) → List Subject → ℕ → Bool
subject_of gone ss i = any (λ (s : Subject). s.id == i && gone s.faculty_id) ss

abbrev pub drop_subjects : (ℕ → Bool) → Hub → Hub
drop_subjects gone h = record h {
  subjects = filter (λ (s : Subject). not (gone s.id)) h.subjects;
  subject_scopes = filter (λ (s : Scope). not (gone s.target_id)) h.subject_scopes;
}

abbrev pub drop_faculties : (ℕ → Bool) → Hub → Hub
drop_faculties gone h = record h {
  faculties = filter (λ (f : Faculty). not (gone f.id)) h.faculties;
  faculty_scopes = filter (λ (s : Scope). not (gone s.target_id)) h.faculty_scopes;
}

abbrev pub drop_university : ℕ → Hub → Hub
drop_university i h = record h {
  universities = filter (λ (u : University). not (u.id == i)) h.universities;
  university_scopes = filter (λ (s : Scope). not (s.target_id == i)) h.university_scopes;
  users = map (clear_university (λ u. u == i)) h.users;
}

-- A material outlives its subject only with no subject at all, which its column does not allow.
abbrev pub has_material : (ℕ → Bool) → Db → Bool
has_material gone d = any (λ (m : Material). gone m.subject_id) d.materials

module _ {E : Type 0} where
  abbrev delete_with : (ℕ → Bool) → (Hub → Hub) → Handler Db E (Unit {0})
  delete_with subjects dropped = do
    d ← gets (λ d. d)
    raise_if (has_material subjects d) integrity_error
    modify (λ d. record d { hub = dropped d.hub })
    commit

  unfoldable pub delete_subject : ℕ → Handler Db E (Unit {0})
  delete_subject subject_id = do
    s ← get_subject subject_id
    delete_with (λ i. i == s.id) (drop_subjects (λ i. i == s.id))

  unfoldable pub delete_faculty : ℕ → Handler Db E (Unit {0})
  delete_faculty faculty_id = do
    f ← get_faculty faculty_id
    ss ← gets (λ d. d.hub.subjects)
    let subjects = subject_of (λ i. i == f.id) ss
    delete_with subjects (λ h. drop_faculties (λ i. i == f.id) (drop_subjects subjects h))

  unfoldable pub delete_university : ℕ → Handler Db E (Unit {0})
  delete_university university_id = do
    u ← get_university university_id
    h ← gets (λ d. d.hub)
    let faculties = faculty_of (λ i. i == u.id) h.faculties
    let subjects = subject_of faculties h.subjects
    delete_with subjects
        (λ h. drop_university u.id (drop_faculties faculties (drop_subjects subjects h)))
