-- ===== src/Catalog/Linked.antt =====
-- The parents of the rows of the catalogue and of the materials.
use student_knowledge_hub.Prelude.{
  ℕ, Bool, true, false, ◌||◌, List, [], ◌∷◌, not, ◌==◌, filter, get_row, Keyed, All, All-append,
  is_none, ◌≡◌, refl, arith,
}
use student_knowledge_hub.Hub.Tables.{
  University, Faculty, Subject, Hub, university_keyed, faculty_keyed, subject_keyed,
}
use student_knowledge_hub.Materials.Model.{Material, Db}
use student_knowledge_hub.Service.{request}
use student_knowledge_hub.Catalog.Names.{Names}
use student_knowledge_hub.Catalog.Deletion.{subject_of, faculty_of, has_material}
use student_knowledge_hub.Catalog.Requests.{CatalogCall, handle_catalog, serve_catalog}
use student_knowledge_hub.Catalog.Effects.{doomed_of_faculty, doomed_faculty, doomed_of_university}
use student_knowledge_hub.Catalog.Step.{
  Step, stays, adds_university, adds_faculty, adds_subject, changes_university, changes_faculty,
  changes_subject, drops_subject, drops_faculty, drops_university,
}
use student_knowledge_hub.Catalog.Refinement.{handle_catalog-Step}
use student_knowledge_hub.Catalog.Parents.{
  has_row, has_row-append, has_row-put_row, has_row-filter, All-map, All-both, All-put_row,
  All-filter, none_any,
}

abbrev pub InUniversity : Hub → Faculty → Type 0
InUniversity h f = has_row f.university_id h.universities ≡ true

abbrev pub InFaculty : Hub → Subject → Type 0
InFaculty h s = has_row s.faculty_id h.faculties ≡ true

abbrev pub OnSubject : Hub → Material → Type 0
OnSubject h m = has_row m.subject_id h.subjects ≡ true

not-true : (b : Bool) → not b ≡ true → b ≡ false
not-true true h = absurd (cc h)
not-true false h = refl

-- Every faculty is of a university that is there, every subject of such a faculty, every material on such a
-- subject.
pub record IsLinked (d : Db) : Type 0 where
  pub faculties_linked : All (InUniversity d.hub) d.hub.faculties
  pub subjects_linked : All (InFaculty d.hub) d.hub.subjects
  pub materials_linked : All (OnSubject d.hub) d.materials

-- A subject whose faculty goes is among those that go, and a faculty whose university goes.
subjects_go :
    (gone : ℕ → Bool) (ss : List Subject)
    → All (λ s. subject_of gone ss s.id ≡ false → gone s.faculty_id ≡ false) ss
subjects_go gone [] = tt
subjects_go gone (s ∷ ss) =
    (λ h. ground (arith, h), All-map _ _ ss (λ x f h. f (ground (arith, h))) (subjects_go gone ss))

faculties_go :
    (gone : ℕ → Bool) (fs : List Faculty)
    → All (λ f. faculty_of gone fs f.id ≡ false → gone f.university_id ≡ false) fs
faculties_go gone [] = tt
faculties_go gone (f ∷ fs) =
    (λ h. ground (arith, h), All-map _ _ fs (λ x f h. f (ground (arith, h))) (faculties_go gone fs))

module _ (names : Names) (d : Db) where
  has_parent :
      {A : Type 0} ⦃k : Keyed A⦄ (i : ℕ) (b : Bool) (xs : List A)
      → (b || is_none (get_row i xs)) ≡ false
      → has_row i xs ≡ true
  has_parent i b xs h = ground arith

  -- The materials whose subjects stay.
  materials_stay :
      (gone : ℕ → Bool)
      → has_material gone d ≡ false
      → All (OnSubject d.hub) d.materials
      → All
          (λ m.
            has_row m.subject_id (filter (λ (s : Subject). not (gone s.id)) d.hub.subjects) ≡ true)
          d.materials
  materials_stay gone empty h =
      All-map _ _ d.materials
        (λ m both. has_row-filter m.subject_id gone d.hub.subjects both.0 both.1)
        (All-both _ _ d.materials h
          (none_any (λ (m : Material). gone m.subject_id) d.materials empty))

  subjects_stay :
      (gone : ℕ → Bool)
      → All (InFaculty d.hub) d.hub.subjects
      → All
          (λ s.
            has_row s.faculty_id (filter (λ (f : Faculty). not (gone f.id)) d.hub.faculties) ≡ true)
          (filter (λ (s : Subject). not (subject_of gone d.hub.subjects s.id)) d.hub.subjects)
  subjects_stay gone h =
      All-filter _ _ (λ (s : Subject). not (subject_of gone d.hub.subjects s.id)) d.hub.subjects
        (λ s passes both.
          has_row-filter s.faculty_id gone d.hub.faculties both.0 (both.1 (not-true _ passes)))
        (All-both _ _ d.hub.subjects h (subjects_go gone d.hub.subjects))

  faculties_stay :
      (gone : ℕ → Bool)
      → All (InUniversity d.hub) d.hub.faculties
      → All
          (λ f.
            has_row f.university_id
              (filter (λ (u : University). not (gone u.id)) d.hub.universities)
            ≡ true)
          (filter (λ (f : Faculty). not (faculty_of gone d.hub.faculties f.id)) d.hub.faculties)
  faculties_stay gone h =
      All-filter _ _ (λ (f : Faculty). not (faculty_of gone d.hub.faculties f.id)) d.hub.faculties
        (λ f passes both.
          has_row-filter f.university_id gone d.hub.universities both.0
            (both.1 (not-true _ passes)))
        (All-both _ _ d.hub.faculties h (faculties_go gone d.hub.faculties))

  Step-IsLinked : (c : CatalogCall) (d' : Db) → Step names d c d' → IsLinked d → IsLinked d'
  Step-IsLinked c d' (stays _) h = h
  Step-IsLinked c d' (adds_university payload u id name free sound) h = record {
    faculties_linked =
        All-map _ _ d.hub.faculties
          (λ f there. has_row-append f.university_id u d.hub.universities there) h.faculties_linked;
    subjects_linked = h.subjects_linked;
    materials_linked = h.materials_linked;
  }
  Step-IsLinked c d' (adds_faculty payload f id name parent free sound) h = record {
    faculties_linked =
        All-append _ d.hub.faculties (f ∷ []) h.faculties_linked
          (has_parent f.university_id _ d.hub.universities sound, tt);
    subjects_linked =
        All-map _ _ d.hub.subjects (λ s there. has_row-append s.faculty_id f d.hub.faculties there)
          h.subjects_linked;
    materials_linked = h.materials_linked;
  }
  Step-IsLinked c d' (adds_subject payload s id name parent free sound) h = record {
    faculties_linked = h.faculties_linked;
    subjects_linked =
        All-append _ d.hub.subjects (s ∷ []) h.subjects_linked
          (has_parent s.faculty_id _ d.hub.faculties sound, tt);
    materials_linked =
        All-map _ _ d.materials (λ m there. has_row-append m.subject_id s d.hub.subjects there)
          h.materials_linked;
  }
  Step-IsLinked c d' (changes_university i payload old u found id name free sound) h = record {
    faculties_linked =
        All-map _ _ d.hub.faculties
          (λ f there. has_row-put_row f.university_id u d.hub.universities there)
          h.faculties_linked;
    subjects_linked = h.subjects_linked;
    materials_linked = h.materials_linked;
  }
  Step-IsLinked c d' (changes_faculty i payload old f found id name parent free sound) h = record {
    faculties_linked =
        All-put_row _ f d.hub.faculties (has_parent f.university_id _ d.hub.universities sound)
          h.faculties_linked;
    subjects_linked =
        All-map _ _ d.hub.subjects (λ s there. has_row-put_row s.faculty_id f d.hub.faculties there)
          h.subjects_linked;
    materials_linked = h.materials_linked;
  }
  Step-IsLinked c d' (changes_subject i payload old s found id name parent free sound) h = record {
    faculties_linked = h.faculties_linked;
    subjects_linked =
        All-put_row _ s d.hub.subjects (has_parent s.faculty_id _ d.hub.faculties sound)
          h.subjects_linked;
    materials_linked =
        All-map _ _ d.materials (λ m there. has_row-put_row m.subject_id s d.hub.subjects there)
          h.materials_linked;
  }
  Step-IsLinked c d' (drops_subject i r found empty) h = record {
    faculties_linked = h.faculties_linked;
    subjects_linked =
        All-filter _ _ (λ (s : Subject). not (s.id == r.id)) d.hub.subjects
          (λ s passes there. there) h.subjects_linked;
    materials_linked = materials_stay (λ j. j == r.id) empty h.materials_linked;
  }
  Step-IsLinked c d' (drops_faculty i r found empty) h = record {
    faculties_linked =
        All-filter _ _ (λ (f : Faculty). not (f.id == r.id)) d.hub.faculties
          (λ f passes there. there) h.faculties_linked;
    subjects_linked = subjects_stay (λ j. j == r.id) h.subjects_linked;
    materials_linked = materials_stay (doomed_of_faculty r.id d.hub) empty h.materials_linked;
  }
  Step-IsLinked c d' (drops_university i r found empty) h = record {
    faculties_linked = faculties_stay (λ j. j == r.id) h.faculties_linked;
    subjects_linked = subjects_stay (doomed_faculty r.id d.hub) h.subjects_linked;
    materials_linked = materials_stay (doomed_of_university r.id d.hub) empty h.materials_linked;
  }

module _ {E : Type 0} (names : Names) where
  -- Whatever changes are asked for, in any order and whether they raise or not: where every faculty, subject and
  -- material has its university, faculty and subject, it still has it afterwards.
  pub serve_catalog-IsLinked :
      (cs : List CatalogCall) (d : Db) (out : E)
      → IsLinked d
      → IsLinked (serve_catalog names cs d out).0
  unfolding serve_catalog
  serve_catalog-IsLinked [] d out h = h
  serve_catalog-IsLinked (c ∷ cs) d out h =
      let a = request (handle_catalog {E = E} names c) d out in
      serve_catalog-IsLinked cs a.1 a.2
        (Step-IsLinked names d c a.1 (handle_catalog-Step names d out c) h)
