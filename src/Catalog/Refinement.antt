-- ===== src/Catalog/Refinement.antt =====
-- The handlers of the catalogue (app/modules/catalog/service.py) against the step relation.
use student_knowledge_hub.Prelude.{
  ℕ, none, some, List, ◌==◌, ==_iff, find_sound, get_row, get_or, Keyed, Option-cases, inl, inr,
  ◌≡◌, ◌⊎◌, refl, sym, subst, ap,
}
use student_knowledge_hub.Service.{Handler, Session, Result, ok, err, request}
use student_knowledge_hub.Hub.Tables.{University, university_keyed, faculty_keyed, subject_keyed}
use student_knowledge_hub.Materials.Model.{Db}
use student_knowledge_hub.Catalog.Names.{Names}
use student_knowledge_hub.Catalog.Rows.{
  EntryCreate, EntryUpdate, SubjectUpdate, created_university, created_faculty, created_subject,
  updated_university, updated_faculty, updated_subject,
}
use student_knowledge_hub.Catalog.Service.{
  create_university, create_faculty, create_subject, update_university, update_faculty,
  update_subject,
}
use student_knowledge_hub.Catalog.Deletion.{delete_university, delete_faculty, delete_subject}
use student_knowledge_hub.Catalog.Requests.{
  CatalogCall, creates_university, creates_faculty, creates_subject, updates_university,
  updates_faculty, updates_subject, deletes_university, deletes_faculty, deletes_subject, discard,
  handle_catalog,
}
use student_knowledge_hub.Catalog.Effects.{
  university_namesakes, create_university_effect, create_faculty_effect, create_subject_effect,
  update_university_effect, update_faculty_effect, update_subject_effect, update_university_missing,
  update_faculty_missing, update_subject_missing, delete_university_effect, delete_faculty_effect,
  delete_subject_effect, delete_university_missing, delete_faculty_missing, delete_subject_missing,
}
use student_knowledge_hub.Catalog.Step.{
  Step, stays, adds_university, adds_faculty, adds_subject, changes_university, changes_faculty,
  changes_subject, drops_subject, drops_faculty, drops_university,
}

own_id :
    {A : Type 0} ⦃k : Keyed A⦄ (i : ℕ) (xs : List A) {a : A} → get_row i xs ≡ some a → k.key a ≡ i
own_id {A} ⦃k⦄ i xs {a} found =
    (==_iff (k.key a) i).0 (find_sound (λ (x : A). k.key x == i) xs found)

discard_saved :
    {E A : Type 0} (d : Db) (out : E) (m : Handler Db E A)
    → (request (discard m) d out).1 ≡ (request m d out).1
discard_saved {E} {A} d out m = go (m (record { work = d; saved = d; outside = out })) refl
  where
    go :
        (a : Result A × Session Db E)
        → m (record { work = d; saved = d; outside = out }) ≡ a
        → (request (discard m) d out).1 ≡ (request m d out).1
    go (ok a, s) e = cc
    go (err x, s) e = cc

module _ {E : Type 0} (names : Names) (d : Db) (out : E) where
  reach : {c : CatalogCall} {d' d'' : Db} → d'' ≡ d' → Step names d c d' → Step names d c d''
  reach {c} e s = subst (Step names d c) (sym e) s

  university_creation :
      (payload : EntryCreate)
      → Step names d
          (creates_university payload)
          (request (create_university names payload) d out).1
  university_creation payload = elim (create_university_effect names d out payload) [
    | inl same ↦ reach same (stays _)
    | inr (free, sound, e) ↦ reach e (
        adds_university payload (created_university names d.hub.next_id payload) refl refl free
          sound)
  ]

  faculty_creation :
      (payload : EntryCreate)
      → Step names d (creates_faculty payload) (request (create_faculty names payload) d out).1
  faculty_creation payload = elim (create_faculty_effect names d out payload) [
    | inl same ↦ reach same (stays _)
    | inr (free, sound, e) ↦ reach e (
        adds_faculty payload (created_faculty names d.hub.next_id payload) refl refl refl free
          sound)
  ]

  subject_creation :
      (payload : EntryCreate)
      → Step names d (creates_subject payload) (request (create_subject names payload) d out).1
  subject_creation payload = elim (create_subject_effect names d out payload) [
    | inl same ↦ reach same (stays _)
    | inr (free, sound, e) ↦ reach e (
        adds_subject payload (created_subject names d.hub.next_id payload) refl refl refl free
          sound)
  ]

  university_update :
      (i : ℕ) (payload : EntryUpdate)
      → Step names d
          (updates_university i payload)
          (request (update_university names i payload) d out).1
  university_update i payload = elim (Option-cases (get_row i d.hub.universities)) [
    | inl lost ↦ reach (update_university_missing names d out i payload lost) (stays _)
    | inr (u, found) ↦ elim (update_university_effect names d out i u payload found) [
      | inl same ↦ reach same (stays _)
      | inr (free, sound, e) ↦ reach e (
          changes_university i payload u (updated_university names payload u) found
            (own_id i d.hub.universities found) refl (named u payload free) sound)
    ]
  ]
    where
      named :
          (u : University) (payload : EntryUpdate)
          → (payload.name ≡ none)
            ⊎ (university_namesakes names (some u.id) (updated_university names payload u) d.hub
                ≡ 0)
          → ((updated_university names payload u).name ≡ u.name)
            ⊎ (university_namesakes names (some u.id) (updated_university names payload u) d.hub
                ≡ 0)
      named u payload (inl e) = inl (ap (λ n. get_or n u.name) e)
      named u payload (inr e) = inr e

  faculty_update :
      (i : ℕ) (payload : EntryUpdate)
      → Step names d (updates_faculty i payload) (request (update_faculty names i payload) d out).1
  faculty_update i payload = elim (Option-cases (get_row i d.hub.faculties)) [
    | inl lost ↦ reach (update_faculty_missing names d out i payload lost) (stays _)
    | inr (r, found) ↦ elim (update_faculty_effect names d out i r payload found) [
      | inl same ↦ reach same (stays _)
      | inr (free, sound, e) ↦ reach e (
          changes_faculty i payload r (updated_faculty names payload r) found
            (own_id i d.hub.faculties found) refl refl free sound)
    ]
  ]

  subject_update :
      (i : ℕ) (payload : SubjectUpdate)
      → Step names d (updates_subject i payload) (request (update_subject names i payload) d out).1
  subject_update i payload = elim (Option-cases (get_row i d.hub.subjects)) [
    | inl lost ↦ reach (update_subject_missing names d out i payload lost) (stays _)
    | inr (r, found) ↦ elim (update_subject_effect names d out i r payload found) [
      | inl same ↦ reach same (stays _)
      | inr (free, sound, e) ↦ reach e (
          changes_subject i payload r (updated_subject names payload r) found
            (own_id i d.hub.subjects found) refl refl free sound)
    ]
  ]

  university_deletion :
      (i : ℕ) → Step names d (deletes_university i) (request (delete_university i) d out).1
  university_deletion i = elim (Option-cases (get_row i d.hub.universities)) [
    | inl lost ↦ reach (delete_university_missing d out i lost) (stays _)
    | inr (r, found) ↦ elim (delete_university_effect d out i r found) [
      | inl same ↦ reach same (stays _)
      | inr (empty, e) ↦ reach e (drops_university i r found empty)
    ]
  ]

  faculty_deletion : (i : ℕ) → Step names d (deletes_faculty i) (request (delete_faculty i) d out).1
  faculty_deletion i = elim (Option-cases (get_row i d.hub.faculties)) [
    | inl lost ↦ reach (delete_faculty_missing d out i lost) (stays _)
    | inr (r, found) ↦ elim (delete_faculty_effect d out i r found) [
      | inl same ↦ reach same (stays _)
      | inr (empty, e) ↦ reach e (drops_faculty i r found empty)
    ]
  ]

  subject_deletion : (i : ℕ) → Step names d (deletes_subject i) (request (delete_subject i) d out).1
  subject_deletion i = elim (Option-cases (get_row i d.hub.subjects)) [
    | inl lost ↦ reach (delete_subject_missing d out i lost) (stays _)
    | inr (r, found) ↦ elim (delete_subject_effect d out i r found) [
      | inl same ↦ reach same (stays _)
      | inr (empty, e) ↦ reach e (drops_subject i r found empty)
    ]
  ]

  -- Every call of the service that changes the catalogue, whatever its arguments and whether it raises or not,
  -- does what the step relation allows that very call: nothing, or its one change of the rows, with the rows,
  -- names and parents that it asks for.
  pub handle_catalog-Step :
      (c : CatalogCall) → Step names d c (request (handle_catalog names c) d out).1
  unfolding handle_catalog
  handle_catalog-Step (creates_university payload) =
      reach (discard_saved d out (create_university names payload)) (university_creation payload)
  handle_catalog-Step (creates_faculty payload) =
      reach (discard_saved d out (create_faculty names payload)) (faculty_creation payload)
  handle_catalog-Step (creates_subject payload) =
      reach (discard_saved d out (create_subject names payload)) (subject_creation payload)
  handle_catalog-Step (updates_university i payload) =
      reach (discard_saved d out (update_university names i payload)) (university_update i payload)
  handle_catalog-Step (updates_faculty i payload) =
      reach (discard_saved d out (update_faculty names i payload)) (faculty_update i payload)
  handle_catalog-Step (updates_subject i payload) =
      reach (discard_saved d out (update_subject names i payload)) (subject_update i payload)
  handle_catalog-Step (deletes_university i) = university_deletion i
  handle_catalog-Step (deletes_faculty i) = faculty_deletion i
  handle_catalog-Step (deletes_subject i) = subject_deletion i
