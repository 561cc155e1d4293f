-- ===== src/Materials/Access.antt =====
-- The methods of `MaterialService` that show a material, and what a reader may do with it.
pub mod Laws
use text.Mathlib.Text.{◌==◌ as str_eq}
use student_knowledge_hub.Prelude.{
  ℕ, ◌+◌, String, Bool, true, false, ◌&&◌, ◌||◌, Option, none, some, List, [], ◌∷◌, ◌++◌, not, ◌==◌,
  any, contains, filter, find, get_row, is_some, is_none, update_where, if◌then◌else◌,
}
use student_knowledge_hub.Service.{
  authentication_error, resource_not_found, permission_denied, runtime_error, pure, gets,
  gets_outside, or_raise, raise_if, modify, modify_outside, commit, ◌>>=◌, ◌>>◌,
}
use student_knowledge_hub.Hub.Tables.{is_staff, User}
use student_knowledge_hub.Materials.Model.{
  is_approved, is_image, Material, MaterialFile, Db, file_keyed,
}
use student_knowledge_hub.Materials.Common.{Action, find_material}
use student_knowledge_hub.Materials.Files.{list_by_material, first_id}

-- The `lookup_field` of a request, with its identifier.
pub data Lookup : Type 0 where
  by_id : ℕ → Lookup
  by_slug : String → Lookup

-- `_get_material`
unfoldable pub get_material : Lookup → Db → Option Material
get_material (by_id i) d = find_material i d
get_material (by_slug slug) d = find (λ m. str_eq m.slug slug) d.materials

abbrev pub staff_user : Option User → Bool
staff_user none = false
staff_user (some u) = is_staff u.role

abbrev pub owns : Option User → Material → Bool
owns none m = false
owns (some u) m = m.uploaded_by == u.id

unfoldable pub get_material_for_view : Lookup → Option User → Action Material
unfolding get_material
get_material_for_view identifier user = do
  found ← gets (get_material identifier)
  m ← or_raise found (resource_not_found "Material not found")
  raise_if (is_some m.deleted_at) (resource_not_found "Material not found")
  if is_approved m.status then pure m else if staff_user user then pure m else do
    raise_if (not (owns user m)) (permission_denied "You do not have access to this material")
    pure m

-- `_build_access_context`
pub record AccessContext : Type 0 where
  pub access_level : String
  pub can_download : Bool
  pub can_preview : Bool
  pub requires_auth_for_download : Bool
  pub preview_page_limit : Option ℕ

abbrev context : String → Bool → Bool → Bool → Option ℕ → AccessContext
context level download preview auth limit = record {
  access_level = level;
  can_download = download;
  can_preview = preview;
  requires_auth_for_download = auth;
  preview_page_limit = limit;
}

abbrev pub is_pdf : MaterialFile → Bool
is_pdf f = str_eq f.file_ext "pdf"

abbrev pub pdf_preview_page_limit : ℕ
pdf_preview_page_limit = 2

abbrev unapproved_context : Material → Option User → AccessContext
unapproved_context m user =
    if staff_user user
    then context "moderator" true true false none
    else if owns user m
    then context "owner" true true false none
    else context "restricted" false false true none

abbrev approved_context : List MaterialFile → Option User → AccessContext
approved_context previewable none =
    context "public" false (any (λ f. is_image f.file_kind || is_pdf f) previewable) true
      (if any is_pdf previewable then some pdf_preview_page_limit else none)
approved_context previewable (some u) =
    context "authenticated" true (any (λ f. true) previewable) false none

unfoldable pub get_material_access_context : Db → Material → Option User → AccessContext
unfolding list_by_material
get_material_access_context d m user =
    if is_approved m.status
    then approved_context (filter (λ f. f.is_previewable) (list_by_material m.id d)) user
    else unapproved_context m user

-- The file asked for, or the primary one, the cover, the first; `material.files[0]` of no files
-- raises an `IndexError`.
abbrev or_else : Option ℕ → Option ℕ → Option ℕ
or_else none b = b
or_else (some a) b = some a

unfoldable pub chosen_file : Option ℕ → Material → Db → Option ℕ
unfolding list_by_material
chosen_file file_id m d =
    or_else file_id
      (or_else m.primary_file_id (or_else m.cover_file_id (first_id (list_by_material m.id d))))

abbrev already_downloaded : ℕ → ℕ → Db → Bool
already_downloaded user_id material_id d =
    any (λ r. r.user_id == user_id && r.material_id == material_id) d.downloads

-- An `update` of the row sets `updated_at` too.
abbrev count_download : ℕ → ℕ → Db → Db
count_download now material_id d = record d {
  materials =
      update_where (λ m. m.id == material_id)
        (λ m. record m { download_count = m.download_count + 1; updated_at = now }) d.materials;
}

abbrev record_download : ℕ → ℕ → Db → Db
record_download user_id material_id d = record d {
  downloads = d.downloads ++ record { user_id = user_id; material_id = material_id } ∷ [];
}

-- The part of `prepare_download` between the checks and the commit: a user is counted once for each
-- material, a reader without an account each time.
unfoldable pub register_download : ℕ → Option User → ℕ → Db → Db
register_download now none material_id d = count_download now material_id d
register_download now (some u) material_id d =
    if already_downloaded u.id material_id d
    then d
    else count_download now material_id (record_download u.id material_id d)

-- The result is the file whose stored bytes are sent.
unfoldable pub prepare_download : ℕ → Lookup → Option ℕ → Option User → Action MaterialFile
prepare_download now identifier file_id user = do
  m ← get_material_for_view identifier user
  raise_if (is_approved m.status && is_none user)
      (authentication_error "Authentication is required to download this material")
  chosen ← gets (chosen_file file_id m)
  file ← or_raise chosen (runtime_error "list index out of range")
  found ← gets (λ d. get_row file d.files)
  entry ← or_raise found (resource_not_found "Material file not found")
  raise_if (not (entry.material_id == m.id)) (resource_not_found "Material file not found")
  there ← gets_outside (λ o. contains entry.storage_key o.stored)
  raise_if (not there) (resource_not_found "Stored file not found")
  modify (register_download now user m.id)
  commit
  modify_outside (λ o. record o { stats_summary_cached = false; trending_ids_cached = false })
  pure entry
