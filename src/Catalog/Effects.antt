-- ===== src/Catalog/Effects.antt =====
-- What each change of the catalogue leaves in the tables, one handler at a time.
use student_knowledge_hub.Prelude.{
  ℕ, Bool, false, ◌&&◌, Option, none, some, ◌==◌, count, get_row, ◌≡◌, ◌⊎◌, arith,
}
use student_knowledge_hub.Service.{request}
use student_knowledge_hub.Hub.Tables.{
  University, Faculty, Subject, Hub, university_keyed, faculty_keyed, subject_keyed,
}
use student_knowledge_hub.Materials.Model.{Db}
use student_knowledge_hub.Catalog.Names.{Names, same_name}
use student_knowledge_hub.Catalog.Tree.{get_university, get_faculty, get_subject}
use student_knowledge_hub.Catalog.Constraints.{
  kept, university_violates, faculty_violates, subject_violates,
}
use student_knowledge_hub.Catalog.Rows.{
  EntryCreate, EntryUpdate, SubjectUpdate, created_university, created_faculty, created_subject,
  updated_university, updated_faculty, updated_subject, add_university, add_faculty, add_subject,
  save_university, save_faculty, save_subject,
}
use student_knowledge_hub.Catalog.Service.{
  create_university, create_faculty, create_subject, update_university, update_faculty,
  update_subject,
}
use student_knowledge_hub.Catalog.Deletion.{
  subject_of, faculty_of, has_material, drop_subjects, drop_faculties, drop_university,
  delete_university, delete_faculty, delete_subject,
}

-- The rows that have the name of a row, under the same parent.
abbrev pub university_namesakes : Names → Option ℕ → University → Hub → ℕ
university_namesakes names exclude_id u h =
    count (λ (r : University). kept exclude_id r.id && same_name names u.name r.name) h.universities

abbrev pub faculty_namesakes : Names → Option ℕ → Faculty → Hub → ℕ
faculty_namesakes names exclude_id f h =
    count
      (λ (r : Faculty).
        kept exclude_id r.id
        && (r.university_id == f.university_id && same_name names f.name r.name))
      h.faculties

abbrev pub subject_namesakes : Names → Option ℕ → Subject → Hub → ℕ
subject_namesakes names exclude_id s h =
    count
      (λ (r : Subject).
        kept exclude_id r.id && (r.faculty_id == s.faculty_id && same_name names s.name r.name))
      h.subjects

module _ {E : Type 0} (names : Names) (d : Db) (out : E) where
  pub create_university_effect :
      (payload : EntryCreate)
      → ((request (create_university names payload) d out).1 ≡ d)
        ⊎ ((university_namesakes names none (created_university names d.hub.next_id payload) d.hub
              ≡ 0)
            × (university_violates (created_university names d.hub.next_id payload) d.hub ≡ false)
            × ((request (create_university names payload) d out).1 ≡ record d {
              hub = add_university (created_university names d.hub.next_id payload) d.hub;
            }))
  unfolding create_university
  create_university_effect payload = ground arith

  pub create_faculty_effect :
      (payload : EntryCreate)
      → ((request (create_faculty names payload) d out).1 ≡ d)
        ⊎ ((faculty_namesakes names none (created_faculty names d.hub.next_id payload) d.hub ≡ 0)
            × (faculty_violates (created_faculty names d.hub.next_id payload) d.hub ≡ false)
            × ((request (create_faculty names payload) d out).1 ≡ record d {
              hub = add_faculty (created_faculty names d.hub.next_id payload) d.hub;
            }))
  unfolding create_faculty
  create_faculty_effect payload = ground arith

  pub update_faculty_effect :
      (i : ℕ) (f : Faculty) (payload : EntryUpdate)
      → get_row i d.hub.faculties ≡ some f
      → ((request (update_faculty names i payload) d out).1 ≡ d)
        ⊎ ((faculty_namesakes names (some f.id) (updated_faculty names payload f) d.hub ≡ 0)
            × (faculty_violates (updated_faculty names payload f) d.hub ≡ false)
            × ((request (update_faculty names i payload) d out).1
                ≡ record d { hub = save_faculty (updated_faculty names payload f) d.hub }))
  unfolding update_faculty get_faculty
  update_faculty_effect i f payload found = ground arith

  pub create_subject_effect :
      (payload : EntryCreate)
      → ((request (create_subject names payload) d out).1 ≡ d)
        ⊎ ((subject_namesakes names none (created_subject names d.hub.next_id payload) d.hub ≡ 0)
            × (subject_violates (created_subject names d.hub.next_id payload) d.hub ≡ false)
            × ((request (create_subject names payload) d out).1 ≡ record d {
              hub = add_subject (created_subject names d.hub.next_id payload) d.hub;
            }))
  unfolding create_subject
  create_subject_effect payload = ground arith

  pub update_university_effect :
      (i : ℕ) (u : University) (payload : EntryUpdate)
      → get_row i d.hub.universities ≡ some u
      → ((request (update_university names i payload) d out).1 ≡ d)
        ⊎ (((payload.name ≡ none)
              ⊎ (university_namesakes names (some u.id) (updated_university names payload u) d.hub
                  ≡ 0))
            × (university_violates (updated_university names payload u) d.hub ≡ false)
            × ((request (update_university names i payload) d out).1
                ≡ record d { hub = save_university (updated_university names payload u) d.hub }))
  unfolding update_university get_university
  update_university_effect i u payload found = ground arith

  pub update_subject_effect :
      (i : ℕ) (s : Subject) (payload : SubjectUpdate)
      → get_row i d.hub.subjects ≡ some s
      → ((request (update_subject names i payload) d out).1 ≡ d)
        ⊎ ((subject_namesakes names (some s.id) (updated_subject names payload s) d.hub ≡ 0)
            × (subject_violates (updated_subject names payload s) d.hub ≡ false)
            × ((request (update_subject names i payload) d out).1
                ≡ record d { hub = save_subject (updated_subject names payload s) d.hub }))
  unfolding update_subject get_subject
  update_subject_effect i s payload found = ground arith

  pub update_university_missing :
      (i : ℕ) (payload : EntryUpdate)
      → get_row i d.hub.universities ≡ none
      → (request (update_university names i payload) d out).1 ≡ d
  unfolding update_university get_university
  update_university_missing i payload lost = ground arith

  pub update_faculty_missing :
      (i : ℕ) (payload : EntryUpdate)
      → get_row i d.hub.faculties ≡ none
      → (request (update_faculty names i payload) d out).1 ≡ d
  unfolding update_faculty get_faculty
  update_faculty_missing i payload lost = ground arith

  pub update_subject_missing :
      (i : ℕ) (payload : SubjectUpdate)
      → get_row i d.hub.subjects ≡ none
      → (request (update_subject names i payload) d out).1 ≡ d
  unfolding update_subject get_subject
  update_subject_missing i payload lost = ground arith

-- The subjects that go with a subject, with a faculty and with a university.
abbrev pub doomed_of_faculty : ℕ → Hub → ℕ → Bool
doomed_of_faculty faculty_id h = subject_of (λ i. i == faculty_id) h.subjects

abbrev pub doomed_faculty : ℕ → Hub → ℕ → Bool
doomed_faculty university_id h = faculty_of (λ i. i == university_id) h.faculties

abbrev pub doomed_of_university : ℕ → Hub → ℕ → Bool
doomed_of_university university_id h = subject_of (doomed_faculty university_id h) h.subjects

module _ {E : Type 0} (d : Db) (out : E) (i : ℕ) where
  pub delete_subject_effect :
      (s : Subject)
      → get_row i d.hub.subjects ≡ some s
      → ((request (delete_subject i) d out).1 ≡ d)
        ⊎ ((has_material (λ j. j == s.id) d ≡ false)
            × ((request (delete_subject i) d out).1
                ≡ record d { hub = drop_subjects (λ j. j == s.id) d.hub }))
  unfolding delete_subject get_subject
  delete_subject_effect s found = ground arith

  pub delete_faculty_effect :
      (f : Faculty)
      → get_row i d.hub.faculties ≡ some f
      → ((request (delete_faculty i) d out).1 ≡ d)
        ⊎ ((has_material (doomed_of_faculty f.id d.hub) d ≡ false)
            × ((request (delete_faculty i) d out).1 ≡ record d {
              hub =
                  drop_faculties
                    (λ j. j == f.id)
                    (drop_subjects (doomed_of_faculty f.id d.hub) d.hub);
            }))
  unfolding delete_faculty get_faculty
  delete_faculty_effect f found = ground arith

  pub delete_university_effect :
      (u : University)
      → get_row i d.hub.universities ≡ some u
      → ((request (delete_university i) d out).1 ≡ d)
        ⊎ ((has_material (doomed_of_university u.id d.hub) d ≡ false)
            × ((request (delete_university i) d out).1 ≡ record d {
              hub = drop_university u.id (
                  drop_faculties
                    (doomed_faculty u.id d.hub)
                    (drop_subjects (doomed_of_university u.id d.hub) d.hub));
            }))
  unfolding delete_university get_university
  delete_university_effect u found = ground arith

  pub delete_subject_missing :
      get_row i d.hub.subjects ≡ none → (request (delete_subject i) d out).1 ≡ d
  unfolding delete_subject get_subject
  delete_subject_missing lost = ground arith

  pub delete_faculty_missing :
      get_row i d.hub.faculties ≡ none → (request (delete_faculty i) d out).1 ≡ d
  unfolding delete_faculty get_faculty
  delete_faculty_missing lost = ground arith

  pub delete_university_missing :
      get_row i d.hub.universities ≡ none → (request (delete_university i) d out).1 ≡ d
  unfolding delete_university get_university
  delete_university_missing lost = ground arith
