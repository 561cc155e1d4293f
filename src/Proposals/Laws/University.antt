-- ===== src/Proposals/Laws/University.antt =====
-- The decisions on university proposals, granted and refused.
use student_knowledge_hub.Prelude.{
  ℕ, String, true, false, Option, some, get_row, Option-cases, inl, inr, ◌≡◌, refl, arith,
}
use student_knowledge_hub.Service.{Session, is_ok, request}
use student_knowledge_hub.Hub.Tables.{User, university_keyed, faculty_keyed, subject_keyed}
use student_knowledge_hub.Catalog.Names.{Names}
use student_knowledge_hub.Proposals.Model.{
  university, ProposalDb, proposal_keyed, get_proposal, log_proposal,
}
use student_knowledge_hub.Proposals.Scope.{require_admin}
use student_knowledge_hub.Proposals.Outcome.{
  ProposalApproveRequest, ProposalRejectRequest, approved_row, rejected_row, text_or,
}
use student_knowledge_hub.Proposals.Decision.{
  approve_university, map_existing_university, reject_university,
}
use student_knowledge_hub.Proposals.Rules.{may_decide, Decided}

module _ {E : Type 0} (now i : ℕ) (actor : User) (d : ProposalDb) (out : E) where
  abbrev opened : Session ProposalDb E
  opened = record { work = d; saved = d; outside = out }

  pub approve_university-Decided :
      (names : Names) (payload : ProposalApproveRequest)
      → is_ok (request (approve_university {E = E} names now i actor payload) d out).0 ≡ true
      → Decided university i actor d
          (request (approve_university {E = E} names now i actor payload) d out).1
  unfolding approve_university require_admin may_decide get_proposal log_proposal
  approve_university-Decided names payload good =
      elim (Option-cases (get_row i d.university_proposals)) [
        | inl lost ↦ absurd (ground arith)
        | inr (p, found) ↦ record {
          row = p;
          new = approved_row now actor.id d.hub.next_id payload.note p;
          found = found;
          was_pending = ground arith;
          entitled = ground arith;
          is_closed = refl;
          reviewer = refl;
          same_id = refl;
          stored = ground arith;
        }
      ]

  pub approve_university_refused :
      (names : Names) (payload : ProposalApproveRequest)
      → is_ok (request (approve_university {E = E} names now i actor payload) d out).0 ≡ false
      → ((request (approve_university {E = E} names now i actor payload) d out).1 ≡ d)
        × ((request (approve_university {E = E} names now i actor payload) d out).2 ≡ out)
  unfolding approve_university require_admin may_decide get_proposal log_proposal
  approve_university_refused names payload bad =
      elim (Option-cases (get_row i d.university_proposals)) [
        | inl lost ↦ (ground arith, ground arith)
        | inr (p, found) ↦ (ground arith, ground arith)
      ]

  pub map_existing_university-Decided :
      (target_id : ℕ) (remark : Option String)
      → is_ok (request (map_existing_university {E = E} now i actor target_id remark) d out).0
        ≡ true
      → Decided university i actor d
          (request (map_existing_university {E = E} now i actor target_id remark) d out).1
  unfolding map_existing_university require_admin may_decide get_proposal log_proposal
  map_existing_university-Decided target_id remark good =
      elim (Option-cases (get_row i d.university_proposals)) [
        | inl lost ↦ absurd (ground arith)
        | inr (p, found) ↦ record {
          row = p;
          new = approved_row now actor.id target_id remark p;
          found = found;
          was_pending = ground arith;
          entitled = ground arith;
          is_closed = refl;
          reviewer = refl;
          same_id = refl;
          stored = ground arith;
        }
      ]

  pub map_existing_university_refused :
      (target_id : ℕ) (remark : Option String)
      → is_ok (request (map_existing_university {E = E} now i actor target_id remark) d out).0
        ≡ false
      → ((request (map_existing_university {E = E} now i actor target_id remark) d out).1 ≡ d)
        × ((request (map_existing_university {E = E} now i actor target_id remark) d out).2 ≡ out)
  unfolding map_existing_university require_admin may_decide get_proposal log_proposal
  map_existing_university_refused target_id remark bad =
      elim (Option-cases (get_row i d.university_proposals)) [
        | inl lost ↦ (ground arith, ground arith)
        | inr (p, found) ↦ (ground arith, ground arith)
      ]

  pub reject_university-Decided :
      (payload : ProposalRejectRequest)
      → is_ok (request (reject_university {E = E} now i actor payload) d out).0 ≡ true
      → Decided university i actor d
          (request (reject_university {E = E} now i actor payload) d out).1
  unfolding reject_university require_admin may_decide get_proposal log_proposal
  reject_university-Decided payload good = elim (Option-cases (get_row i d.university_proposals)) [
    | inl lost ↦ absurd (ground arith)
    | inr (p, found) ↦ record {
      row = p;
      new = rejected_row now actor.id (some (text_or payload.note payload.reason)) p;
      found = found;
      was_pending = ground arith;
      entitled = ground arith;
      is_closed = refl;
      reviewer = refl;
      same_id = refl;
      stored = ground arith;
    }
  ]

  pub reject_university_refused :
      (payload : ProposalRejectRequest)
      → is_ok (request (reject_university {E = E} now i actor payload) d out).0 ≡ false
      → ((request (reject_university {E = E} now i actor payload) d out).1 ≡ d)
        × ((request (reject_university {E = E} now i actor payload) d out).2 ≡ out)
  unfolding reject_university require_admin may_decide get_proposal log_proposal
  reject_university_refused payload bad = elim (Option-cases (get_row i d.university_proposals)) [
    | inl lost ↦ (ground arith, ground arith)
    | inr (p, found) ↦ (ground arith, ground arith)
  ]
