-- ===== src/Materials/Common.antt =====
-- The helpers that the methods of `MaterialService` and `ModerationService` share
-- (app/modules/materials/service.py, repositories.py).
use student_knowledge_hub.Prelude.{
  ℕ, ◌+◌, String, false, Option, none, some, [], ◌∷◌, ◌++◌, not, ◌==◌, is_some, get_row, put_row,
  if◌then◌else◌,
}
use student_knowledge_hub.Service.{
  Handler, resource_not_found, permission_denied, conflict_error, pure, skip, gets, or_raise,
  raise_if, modify, modify_outside, ◌>>=◌, ◌>>◌,
}
use student_knowledge_hub.Hub.Tables.{Hub, subject_keyed, Payload}
use student_knowledge_hub.Materials.Model.{
  pending_review, is_pending, is_approved, ReviewAction, resubmitted, Material, Db, Outside,
  material_keyed,
}

abbrev pub Action : Type 0 → Type 0
Action = Handler Db Outside

-- `MaterialRepository.get`
abbrev pub find_material : ℕ → Db → Option Material
find_material material_id d = get_row material_id d.materials

-- The flush of a changed material: `onupdate` sets `updated_at`.
unfoldable pub save_material : ℕ → Material → Action (Unit {0})
save_material now m =
    modify (λ d. record d { materials = put_row (record m { updated_at = now }) d.materials })

-- The flush of a material whose tags have changed: they stand in a table of their own, and the row
-- of the material is written only where the new review has changed it.
unfoldable pub save_tags : ℕ → Material → Material → Action (Unit {0})
unfolding save_material
save_tags now before m =
    if is_approved before.status
    then save_material now m
    else modify (λ d. record d { materials = put_row m d.materials })

abbrev with_log : ℕ → ReviewAction → ℕ → Option String → Option String → Db → Db
with_log material_id action actor_id note reason d = record d {
  review_logs =
      d.review_logs
      ++ record {
        id = d.hub.next_id;
        material_id = material_id;
        action = action;
        actor_id = actor_id;
        note = note;
        reason = reason;
      }
        ∷ [];
  hub = record d.hub { next_id = d.hub.next_id + 1 };
}

-- `MaterialReviewLogRepository.create`, which returns the id of the new row.
unfoldable pub create_log : ℕ → ReviewAction → ℕ → Option String → Option String → Action ℕ
create_log material_id action actor_id note reason = do
  id ← gets (λ d. d.hub.next_id)
  modify (with_log material_id action actor_id note reason)
  pure id

-- A change of the shared tables, by the audit log or the event outbox.
unfoldable pub on_hub : (Hub → Hub) → Action (Unit {0})
on_hub f = modify (λ d. record d { hub = f d.hub })

-- `_invalidate_material_caches`, of a cache that answers: what a call of Redis raises there, after the
-- commit, is left out.
unfoldable pub invalidate_material_caches : Action (Unit {0})
invalidate_material_caches = modify_outside (λ o. record o {
  stats_summary_cached = false;
  trending_ids_cached = false;
  dashboard_cached = false;
})

-- `_get_owned_material`
unfoldable pub get_owned_material : ℕ → ℕ → Action Material
get_owned_material material_id owner_id = do
  found ← gets (find_material material_id)
  material ← or_raise found (resource_not_found "Material not found")
  raise_if (is_some material.deleted_at) (resource_not_found "Material not found")
  raise_if (not (material.uploaded_by == owner_id))
      (permission_denied "You do not own this material")
  pure material

unfoldable pub ensure_material_is_editable : Material → Action (Unit {0})
ensure_material_is_editable m =
    raise_if (is_pending m.status)
      (conflict_error "Pending review material must be withdrawn before editing")

-- `_mark_material_for_rereview_if_needed`, which returns the material as it left it.
unfoldable pub mark_material_for_rereview : ℕ → Material → ℕ → Action Material
unfolding save_material create_log
mark_material_for_rereview now m actor_id =
    if is_approved m.status
    then (do
      let m' = record m { status = pending_review; submitted_at = some now }
      save_material now m'
      create_log m.id resubmitted actor_id none none
      pure m')
    else pure m

unfoldable pub ensure_subject : ℕ → Action (Unit {0})
ensure_subject subject_id = do
  found ← gets (λ d. get_row subject_id d.hub.subjects)
  or_raise found (resource_not_found "Subject not found")
  skip

-- `_build_material_payload`
abbrev pub material_payload : Material → Payload
material_payload m = Payload.of_material m.id m.title m.subject_id m.uploaded_by
