-- ===== src/Catalog/Constraints.antt =====
-- The checks of `CatalogService` on names and slugs (app/modules/catalog/service.py), and the
-- constraints of the tables (app/modules/catalog/models.py).
use text.Mathlib.Text.{◌==◌ as str_eq}
use student_knowledge_hub.Prelude.{
  ℕ, String, Bool, true, ◌&&◌, ◌||◌, Option, none, some, not, ◌==◌, any, count, is_none, get_row,
  if◌then◌else◌,
}
use student_knowledge_hub.Service.{
  AppError, runtime_error, conflict_error, Handler, raise, raise_if, gets, commit, rollback, ◌>>=◌,
  ◌>>◌,
}
use student_knowledge_hub.Hub.Tables.{
  University, Faculty, Subject, Hub, university_keyed, faculty_keyed, subject_keyed,
}
use student_knowledge_hub.Materials.Model.{Db}
use student_knowledge_hub.Catalog.Names.{Names, same_name, none_found}

-- `id != exclude_id`, a condition that is there only with an id to exclude.
abbrev pub kept : Option ℕ → ℕ → Bool
kept none id = true
kept (some i) id = not (id == i)

abbrev pub integrity_error : AppError
integrity_error = runtime_error "IntegrityError"

-- A slug is unique among the universities, among the faculties of a university and among the subjects of a
-- faculty, and a parent must be there.
abbrev pub university_violates : University → Hub → Bool
university_violates u h =
    any (λ (r : University). not (r.id == u.id) && str_eq r.slug u.slug) h.universities

abbrev pub faculty_violates : Faculty → Hub → Bool
faculty_violates f h =
    any
      (λ (r : Faculty).
        not (r.id == f.id) && (r.university_id == f.university_id && str_eq r.slug f.slug))
      h.faculties
    || is_none (get_row f.university_id h.universities)

abbrev pub subject_violates : Subject → Hub → Bool
subject_violates s h =
    any
      (λ (r : Subject).
        not (r.id == s.id) && (r.faculty_id == s.faculty_id && str_eq r.slug s.slug))
      h.subjects
    || is_none (get_row s.faculty_id h.faculties)

module _ {E : Type 0} where
  -- A flush that comes before a query, outside any `try`: a violated constraint raises as it is.
  abbrev pub autoflush : Bool → Handler Db E (Unit {0})
  autoflush violated = raise_if violated integrity_error

  -- `try: await self.session.commit() except IntegrityError: rollback, ConflictError`
  abbrev pub commit_or_conflict : Bool → String → Handler Db E (Unit {0})
  commit_or_conflict violated message =
      if violated then rollback >> raise (conflict_error message) else commit

  module _ (names : Names) where
    abbrev pub ensure_university_name_available : String → Option ℕ → Handler Db E (Unit {0})
    ensure_university_name_available name exclude_id = do
      h ← gets (λ d. d.hub)
      none_found
          (count (λ (u : University). kept exclude_id u.id && same_name names name u.name)
            h.universities)
          (conflict_error "University with this name already exists")

    abbrev pub ensure_faculty_name_available : ℕ → String → Option ℕ → Handler Db E (Unit {0})
    ensure_faculty_name_available university_id name exclude_id = do
      h ← gets (λ d. d.hub)
      none_found
          (count
            (λ (f : Faculty).
              kept exclude_id f.id
              && (f.university_id == university_id && same_name names name f.name))
            h.faculties)
          (conflict_error "Faculty with this name already exists in the university")

    abbrev pub ensure_subject_name_available : ℕ → String → Option ℕ → Handler Db E (Unit {0})
    ensure_subject_name_available faculty_id name exclude_id = do
      h ← gets (λ d. d.hub)
      none_found
          (count
            (λ (s : Subject).
              kept exclude_id s.id && (s.faculty_id == faculty_id && same_name names name s.name))
            h.subjects)
          (conflict_error "Subject with this name already exists in the faculty")

  abbrev pub ensure_university_slug_available : String → Option ℕ → Handler Db E (Unit {0})
  ensure_university_slug_available slug exclude_id = do
    h ← gets (λ d. d.hub)
    none_found
        (count (λ (u : University). kept exclude_id u.id && str_eq u.slug slug) h.universities)
        (conflict_error "University with this slug already exists")

  abbrev pub ensure_faculty_slug_available : ℕ → String → Option ℕ → Handler Db E (Unit {0})
  ensure_faculty_slug_available university_id slug exclude_id = do
    h ← gets (λ d. d.hub)
    none_found
        (count
          (λ (f : Faculty).
            kept exclude_id f.id && (f.university_id == university_id && str_eq f.slug slug))
          h.faculties)
        (conflict_error "Faculty with this slug already exists in the university")

  abbrev pub ensure_subject_slug_available : ℕ → String → Option ℕ → Handler Db E (Unit {0})
  ensure_subject_slug_available faculty_id slug exclude_id = do
    h ← gets (λ d. d.hub)
    none_found
        (count
          (λ (s : Subject).
            kept exclude_id s.id && (s.faculty_id == faculty_id && str_eq s.slug slug))
          h.subjects)
        (conflict_error "Subject with this slug already exists in the faculty")
