-- ===== src/Materials/Files.antt =====
-- The methods of `MaterialService` over the files of a material, but for the upload itself.
use student_knowledge_hub.Prelude.{
  ℕ, suc, ◌-◌, Bool, true, false, ◌&&◌, ◌||◌, Option, none, some, List, [], ◌∷◌, ◌++◌, map, not,
  ◌==◌, leb, opt_eq, contains, filter, any, length, is_none, find, put_row, delete_where,
  if◌then◌else◌,
}
use student_knowledge_hub.Service.{
  resource_not_found, validation_error, gets, or_raise, raise_if, modify, modify_outside, commit,
  ◌>>=◌, ◌>>◌,
}
use student_knowledge_hub.Hub.Tables.{User}
use student_knowledge_hub.Materials.Model.{Material, MaterialFile, Db, file_keyed}
use student_knowledge_hub.Materials.Common.{
  Action, find_material, save_material, invalidate_material_caches, get_owned_material,
  ensure_material_is_editable, mark_material_for_rereview,
}

-- `order_by(MaterialFile.file_order.asc())`; rows of equal order stay as they are stored.
unfoldable pub insert_file : MaterialFile → List MaterialFile → List MaterialFile
insert_file f [] = f ∷ []
insert_file f (x ∷ xs) = if leb f.file_order x.file_order then f ∷ x ∷ xs else x ∷ insert_file f xs

unfoldable pub sort_files : List MaterialFile → List MaterialFile
unfolding insert_file
sort_files [] = []
sort_files (f ∷ fs) = insert_file f (sort_files fs)

-- `MaterialFileRepository.list_by_material`
unfoldable pub list_by_material : ℕ → Db → List MaterialFile
unfolding sort_files
list_by_material material_id d = sort_files (filter (λ f. f.material_id == material_id) d.files)

-- `for index, item in enumerate(items, i): item.file_order = index`
unfoldable pub renumber : ℕ → List MaterialFile → List MaterialFile
renumber i [] = []
renumber i (f ∷ fs) = record f { file_order = i } ∷ renumber (suc i) fs

-- The flush of changed file rows.
unfoldable pub put_files : List MaterialFile → List MaterialFile → List MaterialFile
put_files [] table = table
put_files (f ∷ fs) table = put_files fs (put_row f table)

unfoldable pub save_files : List MaterialFile → Action (Unit {0})
save_files fs = modify (λ d. record d { files = put_files fs d.files })

-- `remaining[0].id if remaining else None`
abbrev pub first_id : List MaterialFile → Option ℕ
first_id [] = none
first_id (f ∷ _) = some f.id

-- A selection of the file that goes away falls back to the first one left.
abbrev pub reselect : ℕ → Option ℕ → Option ℕ → Option ℕ
reselect gone fallback chosen = if opt_eq chosen (some gone) then fallback else chosen

-- The fields of the material that `delete_file` sets; `max(0, a - b)` is the subtraction of ℕ.
unfoldable pub without_file : MaterialFile → List MaterialFile → Material → Material
without_file target remaining m = record m {
  cover_file_id = reselect target.id (first_id remaining) m.cover_file_id;
  primary_file_id = reselect target.id (first_id remaining) m.primary_file_id;
  file_count = m.file_count - 1;
  total_size = m.total_size - target.file_size;
}

abbrev keys_of : MaterialFile → List ℕ
keys_of f = elim f.preview_storage_key [
  | none ↦ f.storage_key ∷ []
  | some preview ↦ f.storage_key ∷ preview ∷ []
]

-- `_best_effort_delete_storage_keys`; a deletion that fails is passed over, so each key may stay:
-- `lost key` says that its deletion goes through.
unfoldable pub delete_stored : (ℕ → Bool) → List ℕ → Action (Unit {0})
delete_stored lost keys =
    modify_outside
      (λ o. record o { stored = delete_where (λ k. contains k keys && lost k) o.stored })

unfoldable pub delete_file : (ℕ → Bool) → ℕ → ℕ → ℕ → User → Action (Option Material)
unfolding ensure_material_is_editable mark_material_for_rereview save_files save_material
    delete_stored invalidate_material_caches
delete_file lost now material_id file_id user = do
  m ← get_owned_material material_id user.id
  files ← gets (list_by_material m.id)
  target ←
      or_raise (find (λ f. f.id == file_id) files) (resource_not_found "Material file not found")
  ensure_material_is_editable m
  m' ← mark_material_for_rereview now m user.id
  let remaining = filter (λ f. not (f.id == target.id)) files
  save_files (renumber 0 remaining)
  save_material now (without_file target remaining m')
  modify (λ d. record d { files = delete_where (λ f. f.id == target.id) d.files })
  commit
  delete_stored lost (keys_of target)
  invalidate_material_caches
  gets (find_material m.id)

abbrev pub ids_of : List MaterialFile → List ℕ
ids_of files = map (λ (f : MaterialFile). f.id) files

-- `set(xs) == set(ys)`
unfoldable pub same_set : List ℕ → List ℕ → Bool
same_set xs ys = not (any (λ x. not (contains x ys)) xs) && not (any (λ y. not (contains y xs)) ys)

abbrev with_order : ℕ → Option MaterialFile → List MaterialFile
with_order i none = []
with_order i (some f) = record f { file_order = i } ∷ []

-- The loop over `enumerate(file_ids)`: the rows of `file_map`, each with its new order.
unfoldable pub reordered : ℕ → List ℕ → List MaterialFile → List MaterialFile
reordered i [] files = []
reordered i (file_id ∷ rest) files =
    with_order i (find (λ f. f.id == file_id) files) ++ reordered (suc i) rest files

unfoldable pub reorder_files : ℕ → ℕ → List ℕ → User → Action (List MaterialFile)
unfolding ensure_material_is_editable mark_material_for_rereview save_files
    invalidate_material_caches
reorder_files now material_id file_ids user = do
  m ← get_owned_material material_id user.id
  files ← gets (list_by_material m.id)
  raise_if (not (length file_ids == length files) || not (same_set file_ids (ids_of files)))
      (validation_error "file_ids must include every existing material file exactly once")
  ensure_material_is_editable m
  mark_material_for_rereview now m user.id
  save_files (reordered 0 file_ids files)
  commit
  invalidate_material_caches
  gets (list_by_material m.id)

-- `cover` or `primary` of the request: true selects the file, false unselects it, a null leaves it.
abbrev pub selected : ℕ → Option Bool → Option ℕ → Option ℕ
selected file_id none chosen = chosen
selected file_id (some true) chosen = some file_id
selected file_id (some false) chosen = if opt_eq chosen (some file_id) then none else chosen

unfoldable pub update_file_selection :
    ℕ → ℕ → ℕ → Option Bool → Option Bool → User → Action (Option Material)
unfolding ensure_material_is_editable mark_material_for_rereview save_material
    invalidate_material_caches
update_file_selection now material_id file_id cover primary user = do
  m ← get_owned_material material_id user.id
  files ← gets (list_by_material m.id)
  raise_if (not (any (λ f. f.id == file_id) files)) (resource_not_found "Material file not found")
  raise_if (is_none cover && is_none primary)
      (validation_error "At least one of cover or primary must be provided")
  ensure_material_is_editable m
  m' ← mark_material_for_rereview now m user.id
  save_material now (record m' {
    cover_file_id = selected file_id cover m'.cover_file_id;
    primary_file_id = selected file_id primary m'.primary_file_id;
  })
  commit
  invalidate_material_caches
  gets (find_material m.id)
