-- ===== src/Materials/Lifecycle.antt =====
-- The methods of `MaterialService` that move a material through its states or change its fields.
use student_knowledge_hub.Prelude.{
  ℕ, String, ◌||◌, Option, none, some, List, [], ◌∷◌, ◌++◌, not, ◌==◌, ltb, contains, get_or,
  if◌then◌else◌,
}
use student_knowledge_hub.Service.{
  resource_not_found, conflict_error, validation_error, pure, skip, gets, raise_if, commit, ◌>>=◌,
  ◌>>◌,
}
use student_knowledge_hub.Hub.Tables.{User}
use student_knowledge_hub.Hub.Events.{enqueue_material_submitted_events}
use student_knowledge_hub.Materials.Model.{
  draft, pending_review, is_draft, is_pending, is_rejected, MaterialType, submitted, resubmitted,
  withdrawn, Material, mark_deleted,
}
use student_knowledge_hub.Materials.Common.{
  Action, find_material, save_material, save_tags, create_log, on_hub, invalidate_material_caches,
  get_owned_material, ensure_material_is_editable, mark_material_for_rereview, ensure_subject,
  material_payload,
}

unfoldable pub submit : ℕ → ℕ → User → Action (Option Material)
unfolding save_material create_log on_hub invalidate_material_caches
submit now material_id user = do
  m ← get_owned_material material_id user.id
  let action = if is_draft m.status then submitted else resubmitted
  raise_if (not (is_draft m.status || is_rejected m.status))
      (conflict_error "Only draft or rejected materials can be submitted")
  raise_if (ltb m.file_count 1) (validation_error "At least one file is required before submission")
  let m' = record m { status = pending_review; submitted_at = some now }
  save_material now m'
  log_id ← create_log m.id action user.id none none
  on_hub (enqueue_material_submitted_events (material_payload m') m.subject_id log_id)
  commit
  invalidate_material_caches
  gets (find_material m.id)

unfoldable pub withdraw : ℕ → ℕ → User → Action (Option Material)
unfolding save_material create_log invalidate_material_caches
withdraw now material_id user = do
  m ← get_owned_material material_id user.id
  raise_if (not (is_pending m.status)) (conflict_error "Only pending materials can be withdrawn")
  save_material now (record m { status = draft })
  create_log m.id withdrawn user.id none none
  commit
  invalidate_material_caches
  gets (find_material m.id)

-- The fields that the request sets: `none` is one left out. A null for a column that takes none is
-- refused by the database and is no value here.
pub record MaterialUpdate : Type 0 where
  pub title : Option String
  pub description : Option (Option String)
  pub material_type : Option MaterialType
  pub subject_id : Option ℕ
  pub semesters : Option (List ℕ)
  pub cover_file_id : Option (Option ℕ)
  pub primary_file_id : Option (Option ℕ)

-- The loop of `setattr` over the fields set.
unfoldable pub set_fields : MaterialUpdate → Material → Material
set_fields u m = record m {
  title = get_or u.title m.title;
  description = get_or u.description m.description;
  material_type = get_or u.material_type m.material_type;
  subject_id = get_or u.subject_id m.subject_id;
  semesters = get_or u.semesters m.semesters;
  cover_file_id = get_or u.cover_file_id m.cover_file_id;
  primary_file_id = get_or u.primary_file_id m.primary_file_id;
}

abbrev ensure_new_subject : Option ℕ → Action (Unit {0})
ensure_new_subject none = skip
ensure_new_subject (some subject_id) = ensure_subject subject_id

unfoldable pub update_material : ℕ → ℕ → MaterialUpdate → User → Action (Option Material)
unfolding ensure_subject ensure_material_is_editable mark_material_for_rereview save_material
    invalidate_material_caches
update_material now material_id payload user = do
  m ← get_owned_material material_id user.id
  ensure_new_subject payload.subject_id
  ensure_material_is_editable m
  m' ← mark_material_for_rereview now m user.id
  save_material now (set_fields payload m')
  commit
  invalidate_material_caches
  gets (find_material m.id)

unfoldable pub delete_material : ℕ → ℕ → User → Action (Unit {0})
unfolding save_material mark_deleted invalidate_material_caches
delete_material now material_id user = do
  m ← get_owned_material material_id user.id
  save_material now (mark_deleted now m)
  commit
  invalidate_material_caches

unfoldable pub attach_tag : ℕ → ℕ → ℕ → User → Action (Option Material)
unfolding ensure_material_is_editable mark_material_for_rereview save_tags
    invalidate_material_caches
attach_tag now material_id tag_id user = do
  m ← get_owned_material material_id user.id
  known ← gets (λ d. contains tag_id d.tags)
  raise_if (not known) (resource_not_found "Tag not found")
  if contains tag_id m.tags then pure (some m) else do
    ensure_material_is_editable m
    m' ← mark_material_for_rereview now m user.id
    save_tags now m (record m' { tags = m'.tags ++ tag_id ∷ [] })
    commit
    invalidate_material_caches
    gets (find_material m.id)

-- `list.remove`: the first occurrence.
unfoldable pub remove_first : ℕ → List ℕ → List ℕ
remove_first t [] = []
remove_first t (x ∷ xs) = if t == x then xs else x ∷ remove_first t xs

unfoldable pub detach_tag : ℕ → ℕ → ℕ → User → Action (Option Material)
unfolding ensure_material_is_editable mark_material_for_rereview save_tags
    invalidate_material_caches
detach_tag now material_id tag_id user = do
  m ← get_owned_material material_id user.id
  raise_if (not (contains tag_id m.tags)) (resource_not_found "Tag not attached to material")
  ensure_material_is_editable m
  m' ← mark_material_for_rereview now m user.id
  save_tags now m (record m' { tags = remove_first tag_id m'.tags })
  commit
  invalidate_material_caches
  gets (find_material m.id)
