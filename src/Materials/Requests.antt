-- ===== src/Materials/Requests.antt =====
-- The requests that change a material, as data, and the state machine that they follow.
pub mod Ownership
pub mod Steps
pub mod Author
pub mod Moderator
pub mod Refusals
pub mod Machine
pub mod Review
use student_knowledge_hub.Prelude.{ℕ, String, Bool, Option, none, some, List, put_row, ◌≡◌}
use student_knowledge_hub.Service.{skip, ◌>>=◌, ◌>>◌}
use student_knowledge_hub.Hub.Tables.{User, Hub}
use student_knowledge_hub.Materials.Model.{
  MaterialStatus, draft, pending_review, approved, rejected, Material, Db, material_keyed,
}
use student_knowledge_hub.Materials.Common.{Action, find_material}
use student_knowledge_hub.Materials.Lifecycle.{
  submit, withdraw, MaterialUpdate, update_material, delete_material, attach_tag, detach_tag,
}
use student_knowledge_hub.Materials.Files.{delete_file, reorder_files, update_file_selection}
use student_knowledge_hub.Materials.Moderation.{
  RejectRequest, approve, reject, request_revision, move_subject,
}
use student_knowledge_hub.Materials.Moderation.Rights.{MayModerate}

-- What is asked for; the material and the user stand beside it.
pub data Request : Type 0 where
  submit_request withdraw_request delete_request approve_request : Request
  update_request : MaterialUpdate → Request
  attach_tag_request detach_tag_request : (tag_id : ℕ) → Request
  delete_file_request : (lost : ℕ → Bool) → (file_id : ℕ) → Request
  reorder_request : (file_ids : List ℕ) → Request
  selection_request : (file_id : ℕ) → (cover primary : Option Bool) → Request
  reject_request revision_request : RejectRequest → Request
  move_request : (subject_id : ℕ) → (note : Option String) → Request

-- The handler of a request, without the response that it builds.
unfoldable pub handle : ℕ → Request → ℕ → User → Action (Unit {0})
handle now submit_request i user = do submit now i user; skip
handle now withdraw_request i user = do withdraw now i user; skip
handle now delete_request i user = delete_material now i user
handle now approve_request i user = do approve now i user; skip
handle now (update_request payload) i user = do update_material now i payload user; skip
handle now (attach_tag_request tag_id) i user = do attach_tag now i tag_id user; skip
handle now (detach_tag_request tag_id) i user = do detach_tag now i tag_id user; skip
handle now (delete_file_request lost file_id) i user = do delete_file lost now i file_id user; skip
handle now (reorder_request file_ids) i user = do reorder_files now i file_ids user; skip
handle now (selection_request file_id cover primary) i user = do
  update_file_selection now i file_id cover primary user
  skip
handle now (reject_request payload) i user = do reject now i payload user; skip
handle now (revision_request payload) i user = do request_revision now i payload user; skip
handle now (move_request subject_id note) i user = do move_subject now i subject_id note user; skip

pub data Kind : Type 0 where
  submitting withdrawing editing deleting approving refusing moving : Kind

-- Of an edit that finds the tag attached already, nothing is left to do.
abbrev pub kind : Request → Kind
kind submit_request = submitting
kind withdraw_request = withdrawing
kind delete_request = deleting
kind approve_request = approving
kind (reject_request _) = refusing
kind (revision_request _) = refusing
kind (move_request _ _) = moving
kind _ = editing

-- The states that a request may lead from and to.
pub data StatusStep : Kind → MaterialStatus → MaterialStatus → Type 0 where
  submit_draft : StatusStep submitting draft pending_review
  resubmit : StatusStep submitting rejected pending_review
  take_back : StatusStep withdrawing pending_review draft
  edit_draft : StatusStep editing draft draft
  edit_rejected : StatusStep editing rejected rejected
  edit_approved : StatusStep editing approved pending_review
  accept : StatusStep approving pending_review approved
  refuse : StatusStep refusing pending_review rejected
  delete_any : (s : MaterialStatus) → StatusStep deleting s s
  move_any : (s : MaterialStatus) → StatusStep moving s s

-- Who may ask for what: an author for their own material, a moderator within their scope.
abbrev pub Entitled : Kind → Hub → User → Material → Type 0
Entitled approving h user m = MayModerate h user m
Entitled refusing h user m = MayModerate h user m
Entitled moving h user m = MayModerate h user m
Entitled submitting h user m = m.uploaded_by ≡ user.id
Entitled withdrawing h user m = m.uploaded_by ≡ user.id
Entitled editing h user m = m.uploaded_by ≡ user.id
Entitled deleting h user m = m.uploaded_by ≡ user.id

-- One row, found under the id and not deleted, has changed, at the request of somebody entitled to
-- it: its state by a step of the machine, its id and its owner not at all. No other row has.
pub record Effect (k : Kind) (i : ℕ) (user : User) (d d' : Db) : Type 0 where
  pub row : Material
  pub new : Material
  pub found : find_material i d ≡ some row
  pub alive : row.deleted_at ≡ none
  pub entitled : Entitled k d.hub user row
  pub same_id : new.id ≡ row.id
  pub same_owner : new.uploaded_by ≡ row.uploaded_by
  pub step : StatusStep k row.status new.status
  pub stored : d'.materials ≡ put_row new d.materials
