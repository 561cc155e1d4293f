-- ===== src/Materials/Requests/Refusals.antt =====
-- The requests that raise.
use student_knowledge_hub.Prelude.{ℕ, String, Bool, Option, List, inl, inr, ◌≡◌, arith}
use student_knowledge_hub.Service.{Session, AppError, err, request}
use student_knowledge_hub.Hub.Tables.{User}
use student_knowledge_hub.Materials.Model.{Db, Outside}
use student_knowledge_hub.Materials.Lifecycle.{
  submit, withdraw, MaterialUpdate, update_material, delete_material, attach_tag, detach_tag,
}
use student_knowledge_hub.Materials.Files.{delete_file, reorder_files, update_file_selection}
use student_knowledge_hub.Materials.Moderation.{
  RejectRequest, approve, reject, request_revision, move_subject,
}
use student_knowledge_hub.Materials.Moderation.Rights.{get_scoped_material-cases}
use student_knowledge_hub.Materials.Requests.{
  Request, handle, submit_request, withdraw_request, delete_request, approve_request,
  update_request, attach_tag_request, detach_tag_request, delete_file_request, reorder_request,
  selection_request, reject_request, revision_request, move_request,
}
use student_knowledge_hub.Materials.Requests.Ownership.{get_owned_material-cases}

abbrev opened : Db → Outside → Session Db Outside
opened d out = record { work = d; saved = d; outside = out }

module _ (now i : ℕ) (user : User) (d : Db) (out : Outside) (d' : Db) (out' : Outside)
    (e : AppError) where
  abbrev Untouched : Request → Type 0
  Untouched r = request (handle now r i user) d out ≡ (err e, d', out') → (d' ≡ d) × (out' ≡ out)

  submit_refused : Untouched submit_request
  unfolding handle submit
  submit_refused h = elim (get_owned_material-cases i user.id (opened d out)) [
    | inr (x, q) ↦ (ground arith, ground arith)
    | inl (m, q, found, alive, entitled) ↦ (ground arith, ground arith)
  ]

  withdraw_refused : Untouched withdraw_request
  unfolding handle withdraw
  withdraw_refused h = elim (get_owned_material-cases i user.id (opened d out)) [
    | inr (x, q) ↦ (ground arith, ground arith)
    | inl (m, q, found, alive, entitled) ↦ (ground arith, ground arith)
  ]

  delete_material_refused : Untouched delete_request
  unfolding handle delete_material
  delete_material_refused h = elim (get_owned_material-cases i user.id (opened d out)) [
    | inr (x, q) ↦ (ground arith, ground arith)
    | inl (m, q, found, alive, entitled) ↦ (ground arith, ground arith)
  ]

  update_material_refused : (p : MaterialUpdate) → Untouched (update_request p)
  unfolding handle update_material
  update_material_refused p h = elim (get_owned_material-cases i user.id (opened d out)) [
    | inr (x, q) ↦ (ground arith, ground arith)
    | inl (m, q, found, alive, entitled) ↦ (ground arith, ground arith)
  ]

  attach_tag_refused : (t : ℕ) → Untouched (attach_tag_request t)
  unfolding handle attach_tag
  attach_tag_refused t h = elim (get_owned_material-cases i user.id (opened d out)) [
    | inr (x, q) ↦ (ground arith, ground arith)
    | inl (m, q, found, alive, entitled) ↦ (ground arith, ground arith)
  ]

  detach_tag_refused : (t : ℕ) → Untouched (detach_tag_request t)
  unfolding handle detach_tag
  detach_tag_refused t h = elim (get_owned_material-cases i user.id (opened d out)) [
    | inr (x, q) ↦ (ground arith, ground arith)
    | inl (m, q, found, alive, entitled) ↦ (ground arith, ground arith)
  ]

  delete_file_refused : (l : ℕ → Bool) (f : ℕ) → Untouched (delete_file_request l f)
  unfolding handle delete_file
  delete_file_refused l f h = elim (get_owned_material-cases i user.id (opened d out)) [
    | inr (x, q) ↦ (ground arith, ground arith)
    | inl (m, q, found, alive, entitled) ↦ (ground arith, ground arith)
  ]

  reorder_files_refused : (fs : List ℕ) → Untouched (reorder_request fs)
  unfolding handle reorder_files
  reorder_files_refused fs h = elim (get_owned_material-cases i user.id (opened d out)) [
    | inr (x, q) ↦ (ground arith, ground arith)
    | inl (m, q, found, alive, entitled) ↦ (ground arith, ground arith)
  ]

  update_file_selection_refused :
      (f : ℕ) (c : Option Bool) (p : Option Bool) → Untouched (selection_request f c p)
  unfolding handle update_file_selection
  update_file_selection_refused f c p h = elim (get_owned_material-cases i user.id (opened d out)) [
    | inr (x, q) ↦ (ground arith, ground arith)
    | inl (m, q, found, alive, entitled) ↦ (ground arith, ground arith)
  ]

  approve_refused : Untouched approve_request
  unfolding handle approve
  approve_refused h = elim (get_scoped_material-cases i user (opened d out)) [
    | inr (x, q) ↦ (ground arith, ground arith)
    | inl (m, q, found, alive, entitled) ↦ (ground arith, ground arith)
  ]

  reject_refused : (p : RejectRequest) → Untouched (reject_request p)
  unfolding handle reject
  reject_refused p h = elim (get_scoped_material-cases i user (opened d out)) [
    | inr (x, q) ↦ (ground arith, ground arith)
    | inl (m, q, found, alive, entitled) ↦ (ground arith, ground arith)
  ]

  request_revision_refused : (p : RejectRequest) → Untouched (revision_request p)
  unfolding handle request_revision
  request_revision_refused p h = elim (get_scoped_material-cases i user (opened d out)) [
    | inr (x, q) ↦ (ground arith, ground arith)
    | inl (m, q, found, alive, entitled) ↦ (ground arith, ground arith)
  ]

  move_subject_refused : (s : ℕ) (n : Option String) → Untouched (move_request s n)
  unfolding handle move_subject
  move_subject_refused s n h = elim (get_scoped_material-cases i user (opened d out)) [
    | inr (x, q) ↦ (ground arith, ground arith)
    | inl (m, q, found, alive, entitled) ↦ (ground arith, ground arith)
  ]

  -- Where the cache answers, a request that raises has changed nothing.
  pub handle_refused :
      (r : Request)
      → request (handle now r i user) d out ≡ (err e, d', out')
      → (d' ≡ d) × (out' ≡ out)
  handle_refused submit_request h = submit_refused h
  handle_refused withdraw_request h = withdraw_refused h
  handle_refused delete_request h = delete_material_refused h
  handle_refused (update_request p) h = update_material_refused p h
  handle_refused (attach_tag_request t) h = attach_tag_refused t h
  handle_refused (detach_tag_request t) h = detach_tag_refused t h
  handle_refused (delete_file_request l f) h = delete_file_refused l f h
  handle_refused (reorder_request fs) h = reorder_files_refused fs h
  handle_refused (selection_request f c p) h = update_file_selection_refused f c p h
  handle_refused approve_request h = approve_refused h
  handle_refused (reject_request p) h = reject_refused p h
  handle_refused (revision_request p) h = request_revision_refused p h
  handle_refused (move_request s n) h = move_subject_refused s n h
