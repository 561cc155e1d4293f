-- ===== src/Catalog/Distinct.antt =====
-- The ids and names of the catalogue through its changes.
use text.Mathlib.Text.{◌==◌ as str_eq}
use text.Mathlib.TextEquality.{eq_iff}
use student_knowledge_hub.Prelude.{
  ℕ, String, Bool, true, ◌&&◌, Option, none, some, All, All-find, get_or, get_row, List, [], ◌∷◌,
  not, ◌==◌, count, inl, inr, ◌≡◌, ◌⊎◌, sym, subst, ◌∙◌, arith,
}
use student_knowledge_hub.Service.{request}
use student_knowledge_hub.Hub.Tables.{
  University, Faculty, Subject, Hub, university_keyed, faculty_keyed, subject_keyed,
}
use student_knowledge_hub.Materials.Model.{Db}
use student_knowledge_hub.Catalog.Names.{Names}
use student_knowledge_hub.Catalog.Requests.{
  CatalogCall, handle_catalog, serve_catalog, creates_university, creates_faculty, creates_subject,
  updates_university, updates_faculty, updates_subject, deletes_university, deletes_faculty,
  deletes_subject,
}
use student_knowledge_hub.Catalog.Rows.{value_of}
use student_knowledge_hub.Catalog.Step.{
  Step, stays, adds_university, adds_faculty, adds_subject, changes_university, changes_faculty,
  changes_subject, drops_subject, drops_faculty, drops_university,
}
use student_knowledge_hub.Catalog.Refinement.{handle_catalog-Step}
use student_knowledge_hub.Catalog.Keys.{
  IsDistinct, later-IsDistinct, added-IsDistinct, changed-IsDistinct, filter-IsDistinct,
}

module _ (names : Names) where
  -- The database and the program compare this name alike: TRIM and strip take the same white space off, and
  -- the two lower the same letters.
  abbrev pub IsAlike : String → Type 0
  IsAlike x = names.sql_lower_trim x ≡ names.normalize_name x

  abbrev pub NameAlike : Option String → Type 0
  NameAlike none = Unit
  NameAlike (some x) = IsAlike x

  -- The name that a call asks for, where it asks for one, is compared alike.
  abbrev pub CallAlike : CatalogCall → Type 0
  CallAlike (creates_university p) = IsAlike p.name
  CallAlike (creates_faculty p) = IsAlike p.name
  CallAlike (creates_subject p) = IsAlike p.name
  CallAlike (updates_university i p) = NameAlike p.name
  CallAlike (updates_faculty i p) = NameAlike p.name
  CallAlike (updates_subject i p) = NameAlike (value_of p.name)
  CallAlike (deletes_university i) = Unit
  CallAlike (deletes_faculty i) = Unit
  CallAlike (deletes_subject i) = Unit

  -- The name of a row, as the database compares it; all universities have the same parent.
  abbrev pub university_named : ℕ → String → University → Bool
  university_named i t u = 0 == i && str_eq (names.sql_lower_trim u.name) t

  abbrev pub faculty_named : ℕ → String → Faculty → Bool
  faculty_named i t f = f.university_id == i && str_eq (names.sql_lower_trim f.name) t

  abbrev pub subject_named : ℕ → String → Subject → Bool
  subject_named i t s = s.faculty_id == i && str_eq (names.sql_lower_trim s.name) t

  -- In each table the ids are distinct, and the names of one parent's rows, and the names are compared alike.
  pub record AllDistinct (h : Hub) : Type 0 where
    pub universities_distinct :
        IsDistinct university_named (λ r. IsAlike r.name) h.next_id h.universities
    pub faculties_distinct : IsDistinct faculty_named (λ r. IsAlike r.name) h.next_id h.faculties
    pub subjects_distinct : IsDistinct subject_named (λ r. IsAlike r.name) h.next_id h.subjects

  -- The text that names a row is its name as it is looked up.
  looked_up :
      (i parent : ℕ) (t name : String)
      → IsAlike name
      → (parent == i && str_eq (names.sql_lower_trim name) t) ≡ true
      → (parent ≡ i) × (names.normalize_name name ≡ t)
  looked_up i parent t name alike e =
      (ground arith, sym alike ∙ (eq_iff (names.sql_lower_trim name) t).0 (ground arith))

  -- The name after a change is the one asked for, or the one before.
  chosen :
      (asked : Option String) (old new : String)
      → new ≡ get_or asked old
      → NameAlike asked
      → IsAlike old
      → IsAlike new
  chosen none old new e a b = subst IsAlike (sym e) b
  chosen (some x) old new e a b = subst IsAlike (sym e) a

  faculty_free :
      (f : Faculty) (q : Faculty → Bool) (fs : List Faculty)
      → IsAlike f.name
      → count
          (λ r.
            q r
            && (r.university_id == f.university_id
                && str_eq (names.sql_lower_trim r.name) (names.normalize_name f.name)))
          fs
        ≡ 0
      → (i : ℕ) (t : String) → faculty_named i t f ≡ true
      → count (λ r. q r && faculty_named i t r) fs ≡ 0
  faculty_free f q fs alike free i t e =
      let (same_parent, same_text) = looked_up i f.university_id t f.name alike e in
      subst (λ (j : ℕ). count (λ r. q r && faculty_named j t r) fs ≡ 0) same_parent
        (subst (λ (u : String). count (λ r. q r && faculty_named f.university_id u r) fs ≡ 0)
          same_text free)

  subject_free :
      (s : Subject) (q : Subject → Bool) (ss : List Subject)
      → IsAlike s.name
      → count
          (λ r.
            q r
            && (r.faculty_id == s.faculty_id
                && str_eq (names.sql_lower_trim r.name) (names.normalize_name s.name)))
          ss
        ≡ 0
      → (i : ℕ) (t : String) → subject_named i t s ≡ true
      → count (λ r. q r && subject_named i t r) ss ≡ 0
  subject_free s q ss alike free i t e =
      let (same_parent, same_text) = looked_up i s.faculty_id t s.name alike e in
      subst (λ (j : ℕ). count (λ r. q r && subject_named j t r) ss ≡ 0) same_parent
        (subst (λ (u : String). count (λ r. q r && subject_named s.faculty_id u r) ss ≡ 0) same_text
          free)

  university_free :
      (u : University) (q : University → Bool) (us : List University)
      → IsAlike u.name
      → count (λ r. q r && str_eq (names.sql_lower_trim r.name) (names.normalize_name u.name)) us
        ≡ 0
      → (i : ℕ) (t : String) → university_named i t u ≡ true
      → count (λ r. q r && university_named i t r) us ≡ 0
  university_free u q us alike free i t e =
      let (same_parent, same_text) = looked_up i 0 t u.name alike e in
      subst (λ (j : ℕ). count (λ r. q r && university_named j t r) us ≡ 0) same_parent
        (subst (λ (v : String). count (λ r. q r && str_eq (names.sql_lower_trim r.name) v) us ≡ 0)
          same_text free)

  Step-AllDistinct :
      (c : CatalogCall) (d d' : Db)
      → Step names d c d'
      → CallAlike c
      → AllDistinct d.hub
      → AllDistinct d'.hub
  Step-AllDistinct c d d' (stays _) alike h = h
  Step-AllDistinct c d d' (adds_university payload r id name free sound) alike h = record {
    universities_distinct =
        let is_alike = subst IsAlike (sym name) alike in
        added-IsDistinct university_named (λ r. IsAlike r.name) d.hub.next_id r d.hub.universities
          id is_alike (university_free r (λ r. true) d.hub.universities is_alike free)
          h.universities_distinct;
    faculties_distinct =
        later-IsDistinct faculty_named (λ r. IsAlike r.name) d.hub.next_id d.hub.faculties
          h.faculties_distinct;
    subjects_distinct =
        later-IsDistinct subject_named (λ r. IsAlike r.name) d.hub.next_id d.hub.subjects
          h.subjects_distinct;
  }
  Step-AllDistinct c d d' (adds_faculty payload r id name parent free sound) alike h = record {
    universities_distinct =
        later-IsDistinct university_named (λ r. IsAlike r.name) d.hub.next_id d.hub.universities
          h.universities_distinct;
    faculties_distinct =
        let is_alike = subst IsAlike (sym name) alike in
        added-IsDistinct faculty_named (λ r. IsAlike r.name) d.hub.next_id r d.hub.faculties id
          is_alike (faculty_free r (λ r. true) d.hub.faculties is_alike free) h.faculties_distinct;
    subjects_distinct =
        later-IsDistinct subject_named (λ r. IsAlike r.name) d.hub.next_id d.hub.subjects
          h.subjects_distinct;
  }
  Step-AllDistinct c d d' (adds_subject payload r id name parent free sound) alike h = record {
    universities_distinct =
        later-IsDistinct university_named (λ r. IsAlike r.name) d.hub.next_id d.hub.universities
          h.universities_distinct;
    faculties_distinct =
        later-IsDistinct faculty_named (λ r. IsAlike r.name) d.hub.next_id d.hub.faculties
          h.faculties_distinct;
    subjects_distinct =
        let is_alike = subst IsAlike (sym name) alike in
        added-IsDistinct subject_named (λ r. IsAlike r.name) d.hub.next_id r d.hub.subjects id
          is_alike (subject_free r (λ r. true) d.hub.subjects is_alike free) h.subjects_distinct;
  }
  Step-AllDistinct c d d' (changes_university i payload old r found id name free sound) alike h =
      record {
        universities_distinct =
            let is_alike = chosen payload.name old.name r.name name alike (
              All-find (λ (x : University). IsAlike x.name) (λ (x : University). x.id == i)
                d.hub.universities h.universities_distinct.plain found) in
            changed-IsDistinct university_named (λ r. IsAlike r.name) d.hub.next_id old r
              d.hub.universities
              (subst (λ (j : ℕ). get_row j d.hub.universities ≡ some old) (sym id) found) is_alike
              (renamed is_alike free) h.universities_distinct;
        faculties_distinct = h.faculties_distinct;
        subjects_distinct = h.subjects_distinct;
      }
    where
      renamed :
          IsAlike r.name
          → (r.name ≡ old.name)
            ⊎ (count
                  (λ (x : University).
                    not (x.id == r.id)
                    && str_eq (names.sql_lower_trim x.name) (names.normalize_name r.name))
                  d.hub.universities
                ≡ 0)
          → (j : ℕ) (t : String) → university_named j t r ≡ true
          → (university_named j t old ≡ true)
            ⊎ (count
                  (λ (x : University). not (x.id == r.id) && university_named j t x)
                  d.hub.universities
                ≡ 0)
      renamed is_alike (inl same) j t e =
          inl (subst (λ (n : String). (0 == j && str_eq (names.sql_lower_trim n) t) ≡ true) same e)
      renamed is_alike (inr gone) j t e =
          inr (university_free r (λ x. not (x.id == r.id)) d.hub.universities is_alike gone j t e)
  Step-AllDistinct c d d' (changes_faculty i payload old r found id name parent free sound) alike
        h =
      record {
        universities_distinct = h.universities_distinct;
        faculties_distinct =
            let is_alike = chosen payload.name old.name r.name name alike (
              All-find (λ (x : Faculty). IsAlike x.name) (λ (x : Faculty). x.id == i)
                d.hub.faculties h.faculties_distinct.plain found) in
            changed-IsDistinct faculty_named (λ r. IsAlike r.name) d.hub.next_id old r
              d.hub.faculties
              (subst (λ (j : ℕ). get_row j d.hub.faculties ≡ some old) (sym id) found) is_alike
              (λ j t e.
                inr (faculty_free r (λ x. not (x.id == r.id)) d.hub.faculties is_alike free j t e))
              h.faculties_distinct;
        subjects_distinct = h.subjects_distinct;
      }
  Step-AllDistinct c d d' (changes_subject i payload old r found id name parent free sound) alike
        h =
      record {
        universities_distinct = h.universities_distinct;
        faculties_distinct = h.faculties_distinct;
        subjects_distinct =
            let is_alike = chosen (value_of payload.name) old.name r.name name alike (
              All-find (λ (x : Subject). IsAlike x.name) (λ (x : Subject). x.id == i) d.hub.subjects
                h.subjects_distinct.plain found) in
            changed-IsDistinct subject_named (λ r. IsAlike r.name) d.hub.next_id old r
              d.hub.subjects (subst (λ (j : ℕ). get_row j d.hub.subjects ≡ some old) (sym id) found)
              is_alike
              (λ j t e.
                inr (subject_free r (λ x. not (x.id == r.id)) d.hub.subjects is_alike free j t e))
              h.subjects_distinct;
      }
  Step-AllDistinct c d d' (drops_subject i r found empty) alike h = record {
    universities_distinct = h.universities_distinct;
    faculties_distinct = h.faculties_distinct;
    subjects_distinct =
        filter-IsDistinct subject_named (λ r. IsAlike r.name) d.hub.next_id _ d.hub.subjects
          h.subjects_distinct;
  }
  Step-AllDistinct c d d' (drops_faculty i r found empty) alike h = record {
    universities_distinct = h.universities_distinct;
    faculties_distinct =
        filter-IsDistinct faculty_named (λ r. IsAlike r.name) d.hub.next_id _ d.hub.faculties
          h.faculties_distinct;
    subjects_distinct =
        filter-IsDistinct subject_named (λ r. IsAlike r.name) d.hub.next_id _ d.hub.subjects
          h.subjects_distinct;
  }
  Step-AllDistinct c d d' (drops_university i r found empty) alike h = record {
    universities_distinct =
        filter-IsDistinct university_named (λ r. IsAlike r.name) d.hub.next_id _ d.hub.universities
          h.universities_distinct;
    faculties_distinct =
        filter-IsDistinct faculty_named (λ r. IsAlike r.name) d.hub.next_id _ d.hub.faculties
          h.faculties_distinct;
    subjects_distinct =
        filter-IsDistinct subject_named (λ r. IsAlike r.name) d.hub.next_id _ d.hub.subjects
          h.subjects_distinct;
  }

  -- Where the database and the program compare the names that are stored and those that the calls ask for alike:
  -- whatever changes are asked for, in any order and whether they raise or not, no two universities come to
  -- have the same name, nor two faculties of one university, nor two subjects of one faculty, and in each table
  -- the ids stay distinct and below the next one.
  pub serve_catalog-AllDistinct :
      {E : Type 0} (cs : List CatalogCall) (d : Db) (out : E)
      → All CallAlike cs
      → AllDistinct d.hub
      → AllDistinct (serve_catalog names cs d out).0.hub
  unfolding serve_catalog
  serve_catalog-AllDistinct [] d out alike h = h
  serve_catalog-AllDistinct {E} (c ∷ cs) d out alike h =
      let a = request (handle_catalog {E = E} names c) d out in
      serve_catalog-AllDistinct cs a.1 a.2 alike.1
        (Step-AllDistinct c d a.1 (handle_catalog-Step names d out c) alike.0 h)
