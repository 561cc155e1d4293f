-- ===== src/Catalog/Rows.antt =====
-- The payloads of `CatalogService`, and the rows it makes and changes (app/modules/catalog/schemas.py,
-- app/modules/catalog/service.py).
use text.Mathlib.Text.{◌==◌ as str_eq}
use student_knowledge_hub.Prelude.{
  ℕ, ◌+◌, String, Bool, true, false, ◌&&◌, ◌||◌, Option, none, some, [], ◌∷◌, ◌++◌, not, get_or,
  is_some, put_row, if◌then◌else◌,
}
use student_knowledge_hub.Service.{Handler, skip, modify}
use student_knowledge_hub.Hub.Tables.{
  University, Faculty, Subject, Hub, university_keyed, faculty_keyed, subject_keyed,
}
use student_knowledge_hub.Materials.Model.{Db}
use student_knowledge_hub.Catalog.Names.{Names, slugify}

-- `UniversityCreate`, `FacultyCreate` and `SubjectCreate`; a university has no parent, and only a subject has a
-- code and a description.
pub record EntryCreate : Type 0 where
  pub parent_id : ℕ
  pub name : String
  pub slug : Option String
  pub code : Option String
  pub description : Option String

-- `UniversityUpdate` and `FacultyUpdate`.
pub record EntryUpdate : Type 0 where
  pub parent_id : Option ℕ
  pub name : Option String
  pub slug : Option String

-- A field of a payload that is read with `exclude_unset`.
pub data Field (A : Type 0) : Type 0 where
  unset null : Field A
  set : A → Field A

module _ {A : Type 0} where
  -- The value of `payload.field`.
  abbrev pub value_of : Field A → Option A
  value_of (set a) = some a
  value_of _ = none

  -- `setattr` of a field, where the column has no null.
  abbrev pub assign : Field A → A → A
  assign (set a) old = a
  assign _ old = old

  abbrev pub assign_option : Field A → Option A → Option A
  assign_option (set a) old = some a
  assign_option null old = none
  assign_option unset old = old

  abbrev pub is_null : Field A → Bool
  is_null null = true
  is_null _ = false

pub record SubjectUpdate : Type 0 where
  pub faculty_id : Field ℕ
  pub name : Field String
  pub slug : Field String
  pub code : Field String
  pub description : Field String

-- A field that is null where the column is not violates a constraint; a slug that is null is passed over
-- where there is a name.
abbrev pub sets_null : SubjectUpdate → Bool
sets_null payload =
    is_null payload.faculty_id
    || is_null payload.name
    || (is_null payload.slug && not (is_some (value_of payload.name)))

-- `payload.slug or slugify(payload.name)`
abbrev pub slug_for : Names → Option String → String → String
slug_for names none name = slugify names name
slug_for names (some slug) name = if str_eq slug "" then slugify names name else slug

-- The slug that an update asks for: the given one, or that of the given name.
abbrev pub asked_slug : Names → Option String → Option String → Option String
asked_slug names (some slug) name = some slug
asked_slug names none (some name) = some (slugify names name)
asked_slug names none none = none

-- The rows that are made and changed, with the id of a new one.
abbrev pub created_university : Names → ℕ → EntryCreate → University
created_university names id payload = record {
  id = id;
  name = payload.name;
  slug = slug_for names payload.slug payload.name;
}

abbrev pub created_faculty : Names → ℕ → EntryCreate → Faculty
created_faculty names id payload = record {
  id = id;
  university_id = payload.parent_id;
  name = payload.name;
  slug = slug_for names payload.slug payload.name;
}

abbrev pub created_subject : Names → ℕ → EntryCreate → Subject
created_subject names id payload = record {
  id = id;
  faculty_id = payload.parent_id;
  name = payload.name;
  slug = slug_for names payload.slug payload.name;
  code = payload.code;
  description = payload.description;
}

abbrev pub updated_university : Names → EntryUpdate → University → University
updated_university names payload u = record u {
  name = get_or payload.name u.name;
  slug = get_or (asked_slug names payload.slug payload.name) u.slug;
}

-- The parent and the name that are checked before a faculty or a subject is changed.
abbrev pub moved_faculty : EntryUpdate → Faculty → Faculty
moved_faculty payload f = record f {
  university_id = get_or payload.parent_id f.university_id;
  name = get_or payload.name f.name;
}

abbrev pub updated_faculty : Names → EntryUpdate → Faculty → Faculty
updated_faculty names payload f = record (moved_faculty payload f) {
  slug = get_or (asked_slug names payload.slug payload.name) f.slug;
}

abbrev pub moved_subject : SubjectUpdate → Subject → Subject
moved_subject payload s = record s {
  faculty_id = get_or (value_of payload.faculty_id) s.faculty_id;
  name = get_or (value_of payload.name) s.name;
  slug = assign payload.slug s.slug;
  code = assign_option payload.code s.code;
  description = assign_option payload.description s.description;
}

abbrev pub updated_subject : Names → SubjectUpdate → Subject → Subject
updated_subject names payload s =
    let moved = moved_subject payload s in
    record moved {
      slug = get_or (asked_slug names (value_of payload.slug) (value_of payload.name)) moved.slug;
    }

module _ {E : Type 0} where
  abbrev pub on_hub : (Hub → Hub) → Handler Db E (Unit {0})
  on_hub f = modify (λ d. record d { hub = f d.hub })

  -- A check that is made only of a value that is there.
  abbrev pub when_given :
      {A : Type 0} → Option A → (A → Handler Db E (Unit {0})) → Handler Db E (Unit {0})
  when_given none f = skip
  when_given (some a) f = f a

abbrev pub add_university : University → Hub → Hub
add_university u h = record h { universities = h.universities ++ u ∷ []; next_id = h.next_id + 1 }

abbrev pub add_faculty : Faculty → Hub → Hub
add_faculty f h = record h { faculties = h.faculties ++ f ∷ []; next_id = h.next_id + 1 }

abbrev pub add_subject : Subject → Hub → Hub
add_subject s h = record h { subjects = h.subjects ++ s ∷ []; next_id = h.next_id + 1 }

abbrev pub save_university : University → Hub → Hub
save_university u h = record h { universities = put_row u h.universities }

abbrev pub save_faculty : Faculty → Hub → Hub
save_faculty f h = record h { faculties = put_row f h.faculties }

abbrev pub save_subject : Subject → Hub → Hub
save_subject s h = record h { subjects = put_row s h.subjects }
