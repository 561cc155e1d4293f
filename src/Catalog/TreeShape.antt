-- ===== src/Catalog/TreeShape.antt =====
-- The tree of the catalogue against its description by filters.
use mathlib.Core.List.{append-nil, append_assoc}
use student_knowledge_hub.Prelude.{
  ℕ, Bool, true, false, List, [], ◌∷◌, ◌++◌, map, ◌==◌, filter, if◌then◌else◌, ◌≡◌, refl, sym, ap,
  ◌∙◌, arith,
}
use student_knowledge_hub.Hub.Tables.{University, Faculty, Subject, Hub}
use student_knowledge_hub.Catalog.Tree.{
  Orders, Groups, append_to, group_of, FacultyTree, UniversityTree, subjects_by_faculty,
  faculties_by_university, list_university_tree,
}

module _ {A : Type 0} where
  group_of-append_to :
      (key k : ℕ) (item : A) (groups : Groups A)
      → group_of key (append_to k item groups)
        ≡ group_of key groups ++ (if k == key then item ∷ [] else [])
  group_of-append_to key k item [] = ground arith
  group_of-append_to key k item ((k', items) ∷ groups) = ground (
    arith,
    group_of-append_to key k item groups,
    append-nil (group_of key groups),
    append-nil items,
  )

  regroup :
      (b : Bool) (xs ys : List A) (a : A)
      → (xs ++ (if b then a ∷ [] else [])) ++ ys ≡ xs ++ (if b then a ∷ ys else ys)
  regroup true xs ys a = append_assoc xs (a ∷ []) ys
  regroup false xs ys a = append_assoc xs [] ys

map_if :
    {A B : Type 0} (f : A → B) (b : Bool) (a : A) (xs : List A)
    → (if b then f a ∷ map f xs else map f xs) ≡ map f (if b then a ∷ xs else xs)
map_if f true a xs = refl
map_if f false a xs = refl

by_faculty :
    (key : ℕ) (ss : List Subject) (groups : Groups Subject)
    → group_of key (subjects_by_faculty ss groups)
      ≡ group_of key groups ++ filter (λ s. s.faculty_id == key) ss
unfolding subjects_by_faculty
by_faculty key [] groups = sym (append-nil _)
by_faculty key (s ∷ ss) groups =
    by_faculty key ss (append_to s.faculty_id s groups)
    ∙ ap (λ l. l ++ filter (λ (s : Subject). s.faculty_id == key) ss)
        (group_of-append_to key s.faculty_id s groups)
    ∙ regroup (s.faculty_id == key) (group_of key groups)
        (filter (λ (s : Subject). s.faculty_id == key) ss) s

module _ (subjects : Groups Subject) where
  abbrev entry : Faculty → FacultyTree
  entry f = (f, group_of f.id subjects)

  by_university :
      (key : ℕ) (fs : List Faculty) (groups : Groups FacultyTree)
      → group_of key (faculties_by_university subjects fs groups)
        ≡ group_of key groups ++ map entry (filter (λ f. f.university_id == key) fs)
  unfolding faculties_by_university
  by_university key [] groups = sym (append-nil _)
  by_university key (f ∷ fs) groups =
      by_university key fs (append_to f.university_id (entry f) groups)
      ∙ ap (λ l. l ++ map entry (filter (λ (f : Faculty). f.university_id == key) fs))
          (group_of-append_to key f.university_id (entry f) groups)
      ∙ regroup (f.university_id == key) (group_of key groups)
          (map entry (filter (λ (f : Faculty). f.university_id == key) fs)) (entry f)
      ∙ ap (λ l. group_of key groups ++ l)
          (map_if entry (f.university_id == key) f
            (filter (λ (f : Faculty). f.university_id == key) fs))

-- The tree by filters: each university with its faculties, each with its subjects.
abbrev pub filtered_tree : Orders → Hub → List UniversityTree
filtered_tree orders h =
    map
      (λ (u : University). (
        u,
        map
            (λ (f : Faculty). (
              f,
              filter (λ (s : Subject). s.faculty_id == f.id) (orders.subjects_by_name h.subjects),
            ))
            (filter (λ (f : Faculty). f.university_id == u.id)
              (orders.faculties_by_name h.faculties)),
      ))
      (orders.universities_by_name h.universities)

map_ext : {A B : Type 0} (f g : A → B) (xs : List A) → ((x : A) → f x ≡ g x) → map f xs ≡ map g xs
map_ext f g [] h = refl
map_ext f g (x ∷ xs) h = λ i. h x i ∷ map_ext f g xs h i

-- The tree that is built in one pass over each table, through two dicts of groups, is the tree by filters: every
-- university with exactly its faculties, each of them with exactly its subjects, in the order of their names.
pub list_university_tree_filtered :
    (orders : Orders) (h : Hub) → list_university_tree orders h ≡ filtered_tree orders h
unfolding list_university_tree
list_university_tree_filtered orders h =
    map_ext _ _ (orders.universities_by_name h.universities) (λ u i. (
      u,
      (by_university (subjects_by_faculty (orders.subjects_by_name h.subjects) []) u.id
              (orders.faculties_by_name h.faculties) []
            ∙ map_ext _ _
                (filter (λ (f : Faculty). f.university_id == u.id)
                  (orders.faculties_by_name h.faculties))
                (λ f i. (f, by_faculty f.id (orders.subjects_by_name h.subjects) [] i)))
          i,
    ))
