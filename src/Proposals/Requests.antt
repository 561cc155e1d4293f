-- ===== src/Proposals/Requests.antt =====
-- The decisions as data, with their handler (app/modules/moderation/catalog_proposals_api.py and
-- app/modules/telegram/service.py choose among the methods by the type of the proposal).
use student_knowledge_hub.Prelude.{ℕ, String, Option, List, [], ◌∷◌}
use student_knowledge_hub.Service.{Result, request}
use student_knowledge_hub.Hub.Tables.{User}
use student_knowledge_hub.Catalog.Names.{Names}
use student_knowledge_hub.Proposals.Model.{
  ProposalEntityType, university, faculty, subject, Proposal, ProposalDb, Action,
}
use student_knowledge_hub.Proposals.Outcome.{ProposalApproveRequest, ProposalRejectRequest}
use student_knowledge_hub.Proposals.Submission.{
  ProposalCreate, create_university_proposal, create_faculty_proposal, create_subject_proposal,
}
use student_knowledge_hub.Proposals.Decision.{
  approve_university, approve_faculty, approve_subject, map_existing_university,
  map_existing_faculty, map_existing_subject, reject_university, reject_faculty, reject_subject,
}

pub data Decision : Type 0 where
  approve_as_new : ProposalApproveRequest → Decision
  map_existing : (target_id : ℕ) → (remark : Option String) → Decision
  reject : ProposalRejectRequest → Decision

pub record DecisionCall : Type 0 where
  pub now : ℕ
  pub entity_type : ProposalEntityType
  pub proposal_id : ℕ
  pub actor : User
  pub decision : Decision

-- What the service is asked: to take a proposal, or to decide on one.
pub data ProposalCall : Type 0 where
  submission : ProposalEntityType → ProposalCreate → User → ProposalCall
  ruling : DecisionCall → ProposalCall

module _ {E : Type 0} (names : Names) where
  unfoldable pub decide : ℕ → ℕ → User → Decision → ProposalEntityType → Action E Proposal
  decide now i actor (approve_as_new payload) university =
      approve_university names now i actor payload
  decide now i actor (approve_as_new payload) faculty = approve_faculty names now i actor payload
  decide now i actor (approve_as_new payload) subject = approve_subject names now i actor payload
  decide now i actor (map_existing target_id remark) university =
      map_existing_university now i actor target_id remark
  decide now i actor (map_existing target_id remark) faculty =
      map_existing_faculty now i actor target_id remark
  decide now i actor (map_existing target_id remark) subject =
      map_existing_subject now i actor target_id remark
  decide now i actor (reject payload) university = reject_university now i actor payload
  decide now i actor (reject payload) faculty = reject_faculty now i actor payload
  decide now i actor (reject payload) subject = reject_subject now i actor payload

  abbrev pub decision_answer : DecisionCall → ProposalDb → E → Result Proposal × ProposalDb × E
  decision_answer c d out =
      request (decide c.now c.proposal_id c.actor c.decision c.entity_type) d out

  -- A run of decisions: one that raises is answered by its error, and the next one is served.
  unfoldable pub serve_decisions : List DecisionCall → ProposalDb → E → ProposalDb × E
  serve_decisions [] d out = (d, out)
  serve_decisions (c ∷ cs) d out =
      let (_, d', out') = decision_answer c d out in serve_decisions cs d' out'

  unfoldable pub submit_proposal : ProposalEntityType → ProposalCreate → User → Action E Proposal
  submit_proposal university payload user = create_university_proposal names payload user
  submit_proposal faculty payload user = create_faculty_proposal names payload user
  submit_proposal subject payload user = create_subject_proposal names payload user

  abbrev pub serve_proposal : ProposalCall → ProposalDb → E → Result Proposal × ProposalDb × E
  serve_proposal (submission e payload user) d out = request (submit_proposal e payload user) d out
  serve_proposal (ruling c) d out = decision_answer c d out

  unfoldable pub serve_proposals : List ProposalCall → ProposalDb → E → ProposalDb × E
  serve_proposals [] d out = (d, out)
  serve_proposals (c ∷ cs) d out =
      let (_, d', out') = serve_proposal c d out in serve_proposals cs d' out'
