-- ===== src/Materials/Requests/Author.antt =====
-- The effect of each request of an author.
use student_knowledge_hub.Prelude.{
  ℕ, Bool, Option, some, List, [], ◌∷◌, ◌++◌, not, ◌==◌, contains, filter, find, Bool-cases,
  Option-cases, inl, inr, ◌≡◌, ◌⊎◌, refl, arith,
}
use student_knowledge_hub.Service.{Session, ok, request}
use student_knowledge_hub.Hub.Tables.{User}
use student_knowledge_hub.Materials.Model.{
  draft, pending_review, is_approved, Material, Db, Outside,
}
use student_knowledge_hub.Materials.Lifecycle.{
  submit, withdraw, MaterialUpdate, set_fields, update_material, delete_material, attach_tag,
  remove_first, detach_tag,
}
use student_knowledge_hub.Materials.Files.{
  list_by_material, without_file, delete_file, reorder_files, selected, update_file_selection,
}
use student_knowledge_hub.Materials.Requests.{
  Request, handle, kind, Effect, delete_any, submit_request, withdraw_request, delete_request,
  update_request, attach_tag_request, detach_tag_request, delete_file_request, reorder_request,
  selection_request,
}
use student_knowledge_hub.Materials.Requests.Ownership.{get_owned_material-cases}
use student_knowledge_hub.Materials.Requests.Steps.{
  submit_step, withdraw_step, rereviewed, rereview_step, kept_step, twice_stored,
}

-- A fresh session over the database.
abbrev opened : Db → Outside → Session Db Outside
opened d out = record { work = d; saved = d; outside = out }

abbrev attached : ℕ → Material → Material
attached tag_id m = record m { tags = m.tags ++ tag_id ∷ [] }

abbrev detached : ℕ → Material → Material
detached tag_id m = record m { tags = remove_first tag_id m.tags }

abbrev reselected : ℕ → Option Bool → Option Bool → Material → Material
reselected file_id cover primary m = record m {
  cover_file_id = selected file_id cover m.cover_file_id;
  primary_file_id = selected file_id primary m.primary_file_id;
}

module _ (now i : ℕ) (user : User) (d : Db) (out : Outside) (d' : Db) (out' : Outside) where
  abbrev Granted : Request → Type 0
  Granted r = request (handle now r i user) d out ≡ (ok tt, d', out')

  abbrev Outcome : Request → Type 0
  Outcome r = (d'.materials ≡ d.materials) ⊎ Effect (kind r) i user d d'

  pub submit-Effect : Granted submit_request → Outcome submit_request
  unfolding handle submit
  submit-Effect h = elim (get_owned_material-cases i user.id (opened d out)) [
    | inr (e, q) ↦ absurd (ground arith)
    | inl (m, q, found, alive, own) ↦ inr (record {
      row = m;
      new = record m { status = pending_review; submitted_at = some now; updated_at = now };
      found = found;
      alive = alive;
      entitled = own;
      same_id = refl;
      same_owner = refl;
      step = submit_step m.status (ground arith);
      stored = ground arith;
    })
  ]

  pub withdraw-Effect : Granted withdraw_request → Outcome withdraw_request
  unfolding handle withdraw
  withdraw-Effect h = elim (get_owned_material-cases i user.id (opened d out)) [
    | inr (e, q) ↦ absurd (ground arith)
    | inl (m, q, found, alive, own) ↦ inr (record {
      row = m;
      new = record m { status = draft; updated_at = now };
      found = found;
      alive = alive;
      entitled = own;
      same_id = refl;
      same_owner = refl;
      step = withdraw_step m.status (ground arith);
      stored = ground arith;
    })
  ]

  pub delete-Effect : Granted delete_request → Outcome delete_request
  unfolding handle delete_material
  delete-Effect h = elim (get_owned_material-cases i user.id (opened d out)) [
    | inr (e, q) ↦ absurd (ground arith)
    | inl (m, q, found, alive, own) ↦ inr (record {
      row = m;
      new = record m { deleted_at = some now; updated_at = now };
      found = found;
      alive = alive;
      entitled = own;
      same_id = refl;
      same_owner = refl;
      step = delete_any m.status;
      stored = ground arith;
    })
  ]

  pub update-Effect :
      (payload : MaterialUpdate)
      → Granted (update_request payload)
      → Outcome (update_request payload)
  unfolding handle update_material set_fields
  update-Effect payload h = elim (get_owned_material-cases i user.id (opened d out)) [
    | inr (e, q) ↦ absurd (ground arith)
    | inl (m, q, found, alive, own) ↦ inr (record {
      row = m;
      new = record (set_fields payload (rereviewed now m)) { updated_at = now };
      found = found;
      alive = alive;
      entitled = own;
      same_id = ground arith;
      same_owner = ground arith;
      step = rereview_step now m (ground arith);
      stored = ground (
        arith,
        twice_stored now m (set_fields payload (rereviewed now m)) d.materials (ground arith),
      );
    })
  ]

  pub detach_tag-Effect :
      (tag_id : ℕ) → Granted (detach_tag_request tag_id) → Outcome (detach_tag_request tag_id)
  unfolding handle detach_tag
  detach_tag-Effect tag_id h = elim (get_owned_material-cases i user.id (opened d out)) [
    | inr (e, q) ↦ absurd (ground arith)
    | inl (m, q, found, alive, own) ↦ elim (Bool-cases (is_approved m.status)) [
      | inl was ↦ inr (record {
        row = m;
        new = record (detached tag_id (rereviewed now m)) { updated_at = now };
        found = found;
        alive = alive;
        entitled = own;
        same_id = ground arith;
        same_owner = ground arith;
        step = rereview_step now m (ground arith);
        stored = ground (
          arith,
          twice_stored now m (detached tag_id (rereviewed now m)) d.materials (ground arith),
        );
      })
      | inr other ↦ inr (record {
        row = m;
        new = detached tag_id m;
        found = found;
        alive = alive;
        entitled = own;
        same_id = refl;
        same_owner = refl;
        step = kept_step m.status (ground arith) other;
        stored = ground arith;
      })
    ]
  ]

  pub selection-Effect :
      (file_id : ℕ) (cover primary : Option Bool)
      → Granted (selection_request file_id cover primary)
      → Outcome (selection_request file_id cover primary)
  unfolding handle update_file_selection
  selection-Effect file_id cover primary h =
      elim (get_owned_material-cases i user.id (opened d out)) [
        | inr (e, q) ↦ absurd (ground arith)
        | inl (m, q, found, alive, own) ↦ inr (record {
          row = m;
          new = record (reselected file_id cover primary (rereviewed now m)) { updated_at = now };
          found = found;
          alive = alive;
          entitled = own;
          same_id = ground arith;
          same_owner = ground arith;
          step = rereview_step now m (ground arith);
          stored = ground (
            arith,
            twice_stored now m (reselected file_id cover primary (rereviewed now m)) d.materials
                (ground arith),
          );
        })
      ]

  pub attach_tag-Effect :
      (tag_id : ℕ) → Granted (attach_tag_request tag_id) → Outcome (attach_tag_request tag_id)
  unfolding handle attach_tag
  attach_tag-Effect tag_id h = elim (get_owned_material-cases i user.id (opened d out)) [
    | inr (e, q) ↦ absurd (ground arith)
    | inl (m, q, found, alive, own) ↦ elim (Bool-cases (contains tag_id m.tags)) [
      | inl there ↦ inl (ground arith)
      | inr new_tag ↦ elim (Bool-cases (is_approved m.status)) [
        | inl was ↦ inr (record {
          row = m;
          new = record (attached tag_id (rereviewed now m)) { updated_at = now };
          found = found;
          alive = alive;
          entitled = own;
          same_id = ground arith;
          same_owner = ground arith;
          step = rereview_step now m (ground arith);
          stored = ground (
            arith,
            twice_stored now m (attached tag_id (rereviewed now m)) d.materials (ground arith),
          );
        })
        | inr other ↦ inr (record {
          row = m;
          new = attached tag_id m;
          found = found;
          alive = alive;
          entitled = own;
          same_id = refl;
          same_owner = refl;
          step = kept_step m.status (ground arith) other;
          stored = ground arith;
        })
      ]
    ]
  ]

  pub delete_file-Effect :
      (lost : ℕ → Bool) (file_id : ℕ)
      → Granted (delete_file_request lost file_id)
      → Outcome (delete_file_request lost file_id)
  unfolding handle delete_file without_file
  delete_file-Effect lost file_id h = elim (get_owned_material-cases i user.id (opened d out)) [
    | inr (e, q) ↦ absurd (ground arith)
    | inl (m, q, found, alive, own) ↦
        elim (Option-cases (find (λ f. f.id == file_id) (list_by_material m.id d))) [
          | inl missing ↦ absurd (ground arith)
          | inr (target, there) ↦
              let remaining = filter (λ f. not (f.id == target.id)) (list_by_material m.id d) in
              let b = without_file target remaining (rereviewed now m) in
              inr (record {
                row = m;
                new = record b { updated_at = now };
                found = found;
                alive = alive;
                entitled = own;
                same_id = ground arith;
                same_owner = ground arith;
                step = rereview_step now m (ground arith);
                stored = ground (arith, twice_stored now m b d.materials (ground arith));
              })
        ]
  ]

  pub reorder-Effect :
      (file_ids : List ℕ) → Granted (reorder_request file_ids) → Outcome (reorder_request file_ids)
  unfolding handle reorder_files
  reorder-Effect file_ids h = elim (get_owned_material-cases i user.id (opened d out)) [
    | inr (e, q) ↦ absurd (ground arith)
    | inl (m, q, found, alive, own) ↦ elim (Bool-cases (is_approved m.status)) [
      | inr other ↦ inl (ground arith)
      | inl was ↦ inr (record {
        row = m;
        new = record (rereviewed now m) { updated_at = now };
        found = found;
        alive = alive;
        entitled = own;
        same_id = ground arith;
        same_owner = ground arith;
        step = rereview_step now m (ground arith);
        stored = ground arith;
      })
    ]
  ]
