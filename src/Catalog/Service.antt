-- ===== src/Catalog/Service.antt =====
-- `CatalogService` (app/modules/catalog/service.py): what creates, changes and deletes universities,
-- faculties and subjects.
use student_knowledge_hub.Prelude.{ℕ, ◌||◌, none, some, get_row}
use student_knowledge_hub.Service.{Handler, resource_not_found, pure, gets, or_raise, ◌>>=◌, ◌>>◌}
use student_knowledge_hub.Hub.Tables.{
  University, Faculty, Subject, university_keyed, faculty_keyed, subject_keyed,
}
use student_knowledge_hub.Materials.Model.{Db}
use student_knowledge_hub.Catalog.Names.{Names}
use student_knowledge_hub.Catalog.Tree.{get_university, get_faculty, get_subject}
use student_knowledge_hub.Catalog.Constraints.{
  university_violates, faculty_violates, subject_violates, autoflush, commit_or_conflict,
  ensure_university_name_available, ensure_faculty_name_available, ensure_subject_name_available,
  ensure_university_slug_available, ensure_faculty_slug_available, ensure_subject_slug_available,
}
use student_knowledge_hub.Catalog.Rows.{
  EntryCreate, EntryUpdate, SubjectUpdate, value_of, slug_for, asked_slug, sets_null, on_hub,
  when_given, created_university, created_faculty, created_subject, updated_university,
  moved_faculty, updated_faculty, moved_subject, updated_subject, add_university, add_faculty,
  add_subject, save_university, save_faculty, save_subject,
}

module _ {E : Type 0} (names : Names) where
  unfoldable pub create_university : EntryCreate → Handler Db E University
  create_university payload = do
    let slug = slug_for names payload.slug payload.name
    ensure_university_name_available names payload.name none
    ensure_university_slug_available slug none
    h ← gets (λ d. d.hub)
    let u = created_university names h.next_id payload
    on_hub (add_university u)
    commit_or_conflict (university_violates u h) "University with this slug already exists"
    pure u

  unfoldable pub create_faculty : EntryCreate → Handler Db E Faculty
  create_faculty payload = do
    h ← gets (λ d. d.hub)
    or_raise (get_row payload.parent_id h.universities) (resource_not_found "University not found")
    let slug = slug_for names payload.slug payload.name
    ensure_faculty_name_available names payload.parent_id payload.name none
    ensure_faculty_slug_available payload.parent_id slug none
    let f = created_faculty names h.next_id payload
    on_hub (add_faculty f)
    commit_or_conflict (faculty_violates f h)
        "Faculty with this slug already exists in the university"
    pure f

  unfoldable pub create_subject : EntryCreate → Handler Db E Subject
  create_subject payload = do
    h ← gets (λ d. d.hub)
    or_raise (get_row payload.parent_id h.faculties) (resource_not_found "Faculty not found")
    let slug = slug_for names payload.slug payload.name
    ensure_subject_name_available names payload.parent_id payload.name none
    ensure_subject_slug_available payload.parent_id slug none
    let s = created_subject names h.next_id payload
    on_hub (add_subject s)
    commit_or_conflict (subject_violates s h) "Subject with this slug already exists in the faculty"
    pure s

  -- The flush before the query on the slug writes a name only, which no constraint is on.
  unfoldable pub update_university : ℕ → EntryUpdate → Handler Db E University
  update_university university_id payload = do
    u ← get_university university_id
    when_given payload.name (λ name. ensure_university_name_available names name (some u.id))
    let slug = asked_slug names payload.slug payload.name
    when_given slug (λ slug. ensure_university_slug_available slug (some u.id))
    h ← gets (λ d. d.hub)
    let u' = updated_university names payload u
    on_hub (save_university u')
    commit_or_conflict (university_violates u' h) "University with this slug already exists"
    pure u'

  -- The query on the slug finds the row with its new parent and name, and its old slug.
  unfoldable pub update_faculty : ℕ → EntryUpdate → Handler Db E Faculty
  update_faculty faculty_id payload = do
    f ← get_faculty faculty_id
    let f1 = moved_faculty payload f
    ensure_faculty_name_available names f1.university_id f1.name (some f.id)
    h ← gets (λ d. d.hub)
    when_given (asked_slug names payload.slug payload.name) (λ slug.
        autoflush (faculty_violates f1 h)
        >> ensure_faculty_slug_available f1.university_id slug (some f.id))
    let f2 = updated_faculty names payload f
    on_hub (save_faculty f2)
    commit_or_conflict (faculty_violates f2 h)
        "Faculty with this slug already exists in the university"
    pure f2

  unfoldable pub update_subject : ℕ → SubjectUpdate → Handler Db E Subject
  update_subject subject_id payload = do
    s ← get_subject subject_id
    let s1 = moved_subject payload s
    ensure_subject_name_available names s1.faculty_id s1.name (some s.id)
    h ← gets (λ d. d.hub)
    when_given (asked_slug names (value_of payload.slug) (value_of payload.name)) (λ slug.
        autoflush (sets_null payload || subject_violates s1 h)
        >> ensure_subject_slug_available s1.faculty_id slug (some s.id))
    let s2 = updated_subject names payload s
    on_hub (save_subject s2)
    commit_or_conflict (sets_null payload || subject_violates s2 h)
        "Subject with this slug already exists in the faculty"
    pure s2
