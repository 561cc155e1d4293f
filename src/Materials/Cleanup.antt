-- ===== src/Materials/Cleanup.antt =====
-- `MaterialService.cleanup_stale_drafts`, and the join of `build_filtered_query`.
use student_knowledge_hub.Prelude.{
  ℕ, ◌+◌, ◌*◌, Bool, ◌&&◌, Option, none, some, List, [], ◌∷◌, ltb, filter, take, is_some, is_none,
  get_row, if◌then◌else◌,
}
use student_knowledge_hub.Service.{pure, skip, gets, commit, ◌>>=◌, ◌>>◌}
use student_knowledge_hub.Hub.Tables.{Faculty, subject_keyed, faculty_keyed, Hub}
use student_knowledge_hub.Materials.Model.{is_draft, Material, Db, mark_deleted}
use student_knowledge_hub.Materials.Common.{Action, save_material, invalidate_material_caches}

-- The faculty that the joins on the subject and its faculty reach.
unfoldable pub faculty_of : ℕ → Hub → Option Faculty
faculty_of subject_id h = elim (get_row subject_id h.subjects) [
  | none ↦ none
  | some s ↦ get_row s.faculty_id h.faculties
]

-- `build_filtered_query`: the materials not deleted whose subject and faculty are there. That the
-- faculty's university is there is its foreign key.
unfoldable pub is_listed : Hub → Material → Bool
unfolding faculty_of
is_listed h m = is_some (faculty_of m.subject_id h) && is_none m.deleted_at

-- Seven days.
abbrev pub stale_seconds : ℕ
stale_seconds = 7 * 86400

abbrev pub is_stale : ℕ → Material → Bool
is_stale now m = is_draft m.status && ltb (m.updated_at + stale_seconds) now

-- The page of at most `page_size` drafts that the query returns.
unfoldable pub stale_drafts : ℕ → ℕ → Db → List Material
unfolding is_listed
stale_drafts page_size now d =
    take page_size (filter (λ m. is_listed d.hub m && is_stale now m) d.materials)

unfoldable pub delete_drafts : ℕ → List Material → Action ℕ
unfolding save_material mark_deleted
delete_drafts now [] = pure 0
delete_drafts now (m ∷ ms) = do
  save_material now (mark_deleted now m)
  count ← delete_drafts now ms
  pure (count + 1)

abbrev pub draft_page_size : ℕ
draft_page_size = 10000

unfoldable pub cleanup_stale_drafts : ℕ → Action ℕ
unfolding stale_drafts delete_drafts invalidate_material_caches
cleanup_stale_drafts now = do
  drafts ← gets (stale_drafts draft_page_size now)
  count ← delete_drafts now drafts
  commit
  (if ltb 0 count then invalidate_material_caches else skip)
  pure count
