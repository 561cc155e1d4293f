-- ===== src/Catalog/Tree.antt =====
-- `CatalogService.list_university_tree` and the readers beside it (app/modules/catalog/service.py,
-- app/modules/catalog/repositories.py).
use student_knowledge_hub.Prelude.{
  ℕ, List, [], ◌∷◌, ◌++◌, map, ◌==◌, filter, get_row, if◌then◌else◌,
}
use student_knowledge_hub.Service.{Handler, resource_not_found, gets, or_raise, ◌>>=◌, ◌>>◌}
use student_knowledge_hub.Materials.Model.{Db}
use student_knowledge_hub.Hub.Tables.{
  University, Faculty, Subject, Hub, university_keyed, faculty_keyed, subject_keyed,
}

-- Of the database: `ORDER BY name ASC`, in its collation.
pub record Orders : Type 0 where
  pub universities_by_name : List University → List University
  pub faculties_by_name : List Faculty → List Faculty
  pub subjects_by_name : List Subject → List Subject

-- A dict whose values are lists.
abbrev pub Groups : Type 0 → Type 0
Groups A = List (ℕ × List A)

module _ {A : Type 0} where
  -- `groups.setdefault(key, []).append(item)`
  abbrev pub append_to : ℕ → A → Groups A → Groups A
  append_to key item [] = (key, item ∷ []) ∷ []
  append_to key item ((k, items) ∷ groups) =
      let rest = append_to key item groups in
      if k == key then (k, items ++ item ∷ []) ∷ groups else (k, items) ∷ rest

  -- `groups.get(key, [])`
  abbrev pub group_of : ℕ → Groups A → List A
  group_of key [] = []
  group_of key ((k, items) ∷ groups) =
      let rest = group_of key groups in if k == key then items else rest

-- A subject's entry is its row, a faculty's its row with the subjects, a university's its row with the
-- faculties.
abbrev pub FacultyTree : Type 0
FacultyTree = Faculty × List Subject

abbrev pub UniversityTree : Type 0
UniversityTree = University × List FacultyTree

unfoldable pub subjects_by_faculty : List Subject → Groups Subject → Groups Subject
subjects_by_faculty [] groups = groups
subjects_by_faculty (s ∷ ss) groups = subjects_by_faculty ss (append_to s.faculty_id s groups)

unfoldable pub faculties_by_university :
    Groups Subject → List Faculty → Groups FacultyTree → Groups FacultyTree
faculties_by_university subjects [] groups = groups
faculties_by_university subjects (f ∷ fs) groups =
    faculties_by_university subjects fs
      (append_to f.university_id (f, group_of f.id subjects) groups)

module _ (orders : Orders) where
  unfoldable pub list_university_tree : Hub → List UniversityTree
  unfolding subjects_by_faculty faculties_by_university
  list_university_tree h =
      let subjects = subjects_by_faculty (orders.subjects_by_name h.subjects) [] in
      let faculties = faculties_by_university subjects (orders.faculties_by_name h.faculties) [] in
      map (λ (u : University). (u, group_of u.id faculties))
        (orders.universities_by_name h.universities)

module _ {E : Type 0} where
  unfoldable pub get_university : ℕ → Handler Db E University
  get_university university_id = do
    found ← gets (λ d. get_row university_id d.hub.universities)
    or_raise found (resource_not_found "University not found")

  unfoldable pub get_faculty : ℕ → Handler Db E Faculty
  get_faculty faculty_id = do
    found ← gets (λ d. get_row faculty_id d.hub.faculties)
    or_raise found (resource_not_found "Faculty not found")

  unfoldable pub get_subject : ℕ → Handler Db E Subject
  get_subject subject_id = do
    found ← gets (λ d. get_row subject_id d.hub.subjects)
    or_raise found (resource_not_found "Subject not found")

  unfoldable pub list_faculties : Orders → ℕ → Handler Db E (List Faculty)
  list_faculties orders university_id = do
    found ← gets (λ d. get_row university_id d.hub.universities)
    or_raise found (resource_not_found "University not found")
    gets (λ d.
        orders.faculties_by_name (filter (λ f. f.university_id == university_id) d.hub.faculties))

  unfoldable pub list_subjects : Orders → ℕ → Handler Db E (List Subject)
  list_subjects orders faculty_id = do
    found ← gets (λ d. get_row faculty_id d.hub.faculties)
    or_raise found (resource_not_found "Faculty not found")
    gets (λ d. orders.subjects_by_name (filter (λ s. s.faculty_id == faculty_id) d.hub.subjects))
