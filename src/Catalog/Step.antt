-- ===== src/Catalog/Step.antt =====
-- What each call may do to the catalogue, as a step relation that knows nothing of the checks and their order (app/modules/catalog/service.py).
use student_knowledge_hub.Prelude.{ℕ, false, none, some, ◌==◌, get_row, get_or, ◌≡◌, ◌⊎◌}
use student_knowledge_hub.Hub.Tables.{
  University, Faculty, Subject, university_keyed, faculty_keyed, subject_keyed,
}
use student_knowledge_hub.Materials.Model.{Db}
use student_knowledge_hub.Catalog.Names.{Names}
use student_knowledge_hub.Catalog.Constraints.{
  university_violates, faculty_violates, subject_violates,
}
use student_knowledge_hub.Catalog.Requests.{
  CatalogCall, creates_university, creates_faculty, creates_subject, updates_university,
  updates_faculty, updates_subject, deletes_university, deletes_faculty, deletes_subject,
}
use student_knowledge_hub.Catalog.Rows.{
  EntryCreate, EntryUpdate, SubjectUpdate, value_of, add_university, add_faculty, add_subject,
  save_university, save_faculty, save_subject,
}
use student_knowledge_hub.Catalog.Deletion.{
  has_material, drop_subjects, drop_faculties, drop_university,
}
use student_knowledge_hub.Catalog.Effects.{
  university_namesakes, faculty_namesakes, subject_namesakes, doomed_of_faculty, doomed_faculty,
  doomed_of_university,
}

-- A call that creates adds one row with the next id, one that updates replaces the row under its id, both with
-- the name and the parent asked for; no other row of its parent has its name, and
-- it violates no constraint. A call that deletes takes the row under its id with everything below it, and only where no material is.
pub data Step (names : Names) (d : Db) : CatalogCall → Db → Type 0 where
  stays : (c : CatalogCall) → Step names d c d
  adds_university :
      (payload : EntryCreate) (u : University)
      → u.id ≡ d.hub.next_id
      → u.name ≡ payload.name
      → university_namesakes names none u d.hub ≡ 0
      → university_violates u d.hub ≡ false
      → Step names d (creates_university payload) (record d { hub = add_university u d.hub })
  adds_faculty :
      (payload : EntryCreate) (f : Faculty)
      → f.id ≡ d.hub.next_id
      → f.name ≡ payload.name
      → f.university_id ≡ payload.parent_id
      → faculty_namesakes names none f d.hub ≡ 0
      → faculty_violates f d.hub ≡ false
      → Step names d (creates_faculty payload) (record d { hub = add_faculty f d.hub })
  adds_subject :
      (payload : EntryCreate) (s : Subject)
      → s.id ≡ d.hub.next_id
      → s.name ≡ payload.name
      → s.faculty_id ≡ payload.parent_id
      → subject_namesakes names none s d.hub ≡ 0
      → subject_violates s d.hub ≡ false
      → Step names d (creates_subject payload) (record d { hub = add_subject s d.hub })
  changes_university :
      (i : ℕ) (payload : EntryUpdate) (old u : University)
      → get_row i d.hub.universities ≡ some old
      → u.id ≡ i
      → u.name ≡ get_or payload.name old.name
      → (u.name ≡ old.name) ⊎ (university_namesakes names (some u.id) u d.hub ≡ 0)
      → university_violates u d.hub ≡ false
      → Step names d (updates_university i payload) (record d { hub = save_university u d.hub })
  changes_faculty :
      (i : ℕ) (payload : EntryUpdate) (old f : Faculty)
      → get_row i d.hub.faculties ≡ some old
      → f.id ≡ i
      → f.name ≡ get_or payload.name old.name
      → f.university_id ≡ get_or payload.parent_id old.university_id
      → faculty_namesakes names (some f.id) f d.hub ≡ 0
      → faculty_violates f d.hub ≡ false
      → Step names d (updates_faculty i payload) (record d { hub = save_faculty f d.hub })
  changes_subject :
      (i : ℕ) (payload : SubjectUpdate) (old s : Subject)
      → get_row i d.hub.subjects ≡ some old
      → s.id ≡ i
      → s.name ≡ get_or (value_of payload.name) old.name
      → s.faculty_id ≡ get_or (value_of payload.faculty_id) old.faculty_id
      → subject_namesakes names (some s.id) s d.hub ≡ 0
      → subject_violates s d.hub ≡ false
      → Step names d (updates_subject i payload) (record d { hub = save_subject s d.hub })
  drops_subject :
      (i : ℕ) (s : Subject)
      → get_row i d.hub.subjects ≡ some s
      → has_material (λ j. j == s.id) d ≡ false
      → Step names d (deletes_subject i) (record d { hub = drop_subjects (λ j. j == s.id) d.hub })
  drops_faculty :
      (i : ℕ) (f : Faculty)
      → get_row i d.hub.faculties ≡ some f
      → has_material (doomed_of_faculty f.id d.hub) d ≡ false
      → Step names d (deletes_faculty i) (record d {
        hub = drop_faculties (λ j. j == f.id) (drop_subjects (doomed_of_faculty f.id d.hub) d.hub);
      })
  drops_university :
      (i : ℕ) (u : University)
      → get_row i d.hub.universities ≡ some u
      → has_material (doomed_of_university u.id d.hub) d ≡ false
      → Step names d (deletes_university i) (record d {
        hub = drop_university u.id (
            drop_faculties
              (doomed_faculty u.id d.hub)
              (drop_subjects (doomed_of_university u.id d.hub) d.hub));
      })
