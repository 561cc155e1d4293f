-- ===== src/Materials/Requests/Machine.antt =====
-- All requests together, as steps of one machine.
use student_knowledge_hub.Prelude.{
  ℕ, some, ◌==◌, some_injective, Bool-cases, inl, inr, ◌≡◌, ◌⊎◌, ◌∙◌, sym, ap, subst,
  get_row-put_row_ne, get_row-put_row_self, find_sound, ==_iff,
}
use student_knowledge_hub.Service.{ok, request}
use student_knowledge_hub.Hub.Tables.{User}
use student_knowledge_hub.Materials.Model.{Material, Db, Outside, material_keyed}
use student_knowledge_hub.Materials.Common.{find_material}
use student_knowledge_hub.Materials.Requests.{
  Request, handle, Kind, kind, Effect, Entitled, StatusStep, submit_request, withdraw_request,
  delete_request, approve_request, update_request, attach_tag_request, detach_tag_request,
  delete_file_request, reorder_request, selection_request, reject_request, revision_request,
  move_request,
}
use student_knowledge_hub.Materials.Requests.Author.{
  submit-Effect, withdraw-Effect, delete-Effect, update-Effect, attach_tag-Effect,
  detach_tag-Effect, delete_file-Effect, reorder-Effect, selection-Effect,
}
use student_knowledge_hub.Materials.Requests.Moderator.{
  approve-Effect, reject-Effect, revision-Effect, move-Effect,
}

module _ (now i : ℕ) (user : User) (d : Db) (out : Outside) (d' : Db) (out' : Outside) where
  -- A request that succeeds leaves the materials as they were, or it changes one: found under the id
  -- of the request and not deleted, for a user who is entitled to it (the owner, or for a review an
  -- admin or a moderator in scope), with its id and owner kept and its status changed by a step that
  -- the machine has for that kind of request. No other material changes.
  pub handle-Effect :
      (r : Request)
      → request (handle now r i user) d out ≡ (ok tt, d', out')
      → (d'.materials ≡ d.materials) ⊎ Effect (kind r) i user d d'
  handle-Effect submit_request h = submit-Effect now i user d out d' out' h
  handle-Effect withdraw_request h = withdraw-Effect now i user d out d' out' h
  handle-Effect delete_request h = delete-Effect now i user d out d' out' h
  handle-Effect approve_request h = approve-Effect now i user d out d' out' h
  handle-Effect (update_request p) h = update-Effect now i user d out d' out' p h
  handle-Effect (attach_tag_request t) h = attach_tag-Effect now i user d out d' out' t h
  handle-Effect (detach_tag_request t) h = detach_tag-Effect now i user d out d' out' t h
  handle-Effect (delete_file_request l f) h = delete_file-Effect now i user d out d' out' l f h
  handle-Effect (reorder_request fs) h = reorder-Effect now i user d out d' out' fs h
  handle-Effect (selection_request f c p) h = selection-Effect now i user d out d' out' f c p h
  handle-Effect (reject_request p) h = reject-Effect now i user d out d' out' p h
  handle-Effect (revision_request p) h = revision-Effect now i user d out d' out' p h
  handle-Effect (move_request s n) h = move-Effect now i user d out d' out' s n h

-- The row under an id is changed by a request for that id alone, by somebody entitled to it, and by
-- a step of the machine.
abbrev pub Moved : Kind → ℕ → ℕ → User → Db → Db → Material → Type 0
Moved k i j user d d' m =
    (m' : Material) × (find_material j d' ≡ some m')
    × StatusStep k m.status m'.status
    × Entitled k d.hub user m
    × (i ≡ j)

pub row_step :
    (k : Kind) (i j : ℕ) (user : User) (d d' : Db) (m : Material)
    → Effect k i user d d'
    → find_material j d ≡ some m
    → (find_material j d' ≡ some m) ⊎ Moved k i j user d d' m
row_step k i j user d d' m f at = elim (Bool-cases (f.new.id == j)) [
  | inr other ↦ inl (
      rw f.stored (
        get_row-put_row_ne j f.new d.materials (λ same. cc (other, (==_iff f.new.id j).1 same))
        ∙ at))
  | inl same ↦
      let new_is : f.new.id ≡ j = (==_iff f.new.id j).0 same in
      let row_is : f.row.id ≡ i =
        (==_iff _ _).0 (find_sound (λ x. x.id == i) d.materials f.found) in
      let i_is : i ≡ j = cc (new_is, row_is, f.same_id) in
      let row_m : f.row ≡ m =
        some_injective (sym f.found ∙ (ap (λ (x : ℕ). find_material x d) i_is ∙ at)) in
      inr (
        f.new,
        rw f.stored (get_row-put_row_self j m f.new d.materials at new_is),
        subst (λ (x : Material). StatusStep k x.status f.new.status) row_m f.step,
        subst (λ (x : Material). Entitled k d.hub user x) row_m f.entitled,
        i_is,
      )
]
