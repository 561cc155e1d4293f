-- ===== src/Proposals/Laws/Subject.antt =====
-- The decisions on subject proposals, granted and refused.
use student_knowledge_hub.Prelude.{
  ℕ, String, true, false, Option, some, get_row, Option-cases, inl, inr, ◌≡◌, refl, arith,
}
use student_knowledge_hub.Service.{Session, is_ok, request}
use student_knowledge_hub.Hub.Tables.{User, university_keyed, faculty_keyed, subject_keyed}
use student_knowledge_hub.Catalog.Names.{Names}
use student_knowledge_hub.Proposals.Model.{
  subject, ProposalDb, proposal_keyed, get_proposal, log_proposal,
}
use student_knowledge_hub.Proposals.Outcome.{
  ProposalApproveRequest, ProposalRejectRequest, approved_row, rejected_row, text_or,
}
use student_knowledge_hub.Proposals.Decision.{approve_subject, map_existing_subject, reject_subject}
use student_knowledge_hub.Proposals.Rules.{Decided, assert_subject_proposal_scope-Guards}

module _ {E : Type 0} (now i : ℕ) (actor : User) (d : ProposalDb) (out : E) where
  abbrev opened : Session ProposalDb E
  opened = record { work = d; saved = d; outside = out }

  pub approve_subject-Decided :
      (names : Names) (payload : ProposalApproveRequest)
      → is_ok (request (approve_subject {E = E} names now i actor payload) d out).0 ≡ true
      → Decided subject i actor d
          (request (approve_subject {E = E} names now i actor payload) d out).1
  unfolding approve_subject get_proposal log_proposal
  approve_subject-Decided names payload good = elim (Option-cases (get_row i d.subject_proposals)) [
    | inl lost ↦ absurd (ground arith)
    | inr (p, found) ↦ elim (assert_subject_proposal_scope-Guards actor p opened) [
      | inr (x, q) ↦ absurd (ground arith)
      | inl (q, may) ↦ record {
        row = p;
        new = approved_row now actor.id d.hub.next_id payload.note p;
        found = found;
        was_pending = ground arith;
        entitled = may;
        is_closed = refl;
        reviewer = refl;
        same_id = refl;
        stored = ground arith;
      }
    ]
  ]

  pub approve_subject_refused :
      (names : Names) (payload : ProposalApproveRequest)
      → is_ok (request (approve_subject {E = E} names now i actor payload) d out).0 ≡ false
      → ((request (approve_subject {E = E} names now i actor payload) d out).1 ≡ d)
        × ((request (approve_subject {E = E} names now i actor payload) d out).2 ≡ out)
  unfolding approve_subject get_proposal log_proposal
  approve_subject_refused names payload bad = elim (Option-cases (get_row i d.subject_proposals)) [
    | inl lost ↦ (ground arith, ground arith)
    | inr (p, found) ↦ elim (assert_subject_proposal_scope-Guards actor p opened) [
      | inr (x, q) ↦ (ground arith, ground arith)
      | inl (q, may) ↦ (ground arith, ground arith)
    ]
  ]

  pub map_existing_subject-Decided :
      (target_id : ℕ) (remark : Option String)
      → is_ok (request (map_existing_subject {E = E} now i actor target_id remark) d out).0 ≡ true
      → Decided subject i actor d
          (request (map_existing_subject {E = E} now i actor target_id remark) d out).1
  unfolding map_existing_subject get_proposal log_proposal
  map_existing_subject-Decided target_id remark good =
      elim (Option-cases (get_row i d.subject_proposals)) [
        | inl lost ↦ absurd (ground arith)
        | inr (p, found) ↦ elim (assert_subject_proposal_scope-Guards actor p opened) [
          | inr (x, q) ↦ absurd (ground arith)
          | inl (q, may) ↦ record {
            row = p;
            new = approved_row now actor.id target_id remark p;
            found = found;
            was_pending = ground arith;
            entitled = may;
            is_closed = refl;
            reviewer = refl;
            same_id = refl;
            stored = ground arith;
          }
        ]
      ]

  pub map_existing_subject_refused :
      (target_id : ℕ) (remark : Option String)
      → is_ok (request (map_existing_subject {E = E} now i actor target_id remark) d out).0 ≡ false
      → ((request (map_existing_subject {E = E} now i actor target_id remark) d out).1 ≡ d)
        × ((request (map_existing_subject {E = E} now i actor target_id remark) d out).2 ≡ out)
  unfolding map_existing_subject get_proposal log_proposal
  map_existing_subject_refused target_id remark bad =
      elim (Option-cases (get_row i d.subject_proposals)) [
        | inl lost ↦ (ground arith, ground arith)
        | inr (p, found) ↦ elim (assert_subject_proposal_scope-Guards actor p opened) [
          | inr (x, q) ↦ (ground arith, ground arith)
          | inl (q, may) ↦ (ground arith, ground arith)
        ]
      ]

  pub reject_subject-Decided :
      (payload : ProposalRejectRequest)
      → is_ok (request (reject_subject {E = E} now i actor payload) d out).0 ≡ true
      → Decided subject i actor d (request (reject_subject {E = E} now i actor payload) d out).1
  unfolding reject_subject get_proposal log_proposal
  reject_subject-Decided payload good = elim (Option-cases (get_row i d.subject_proposals)) [
    | inl lost ↦ absurd (ground arith)
    | inr (p, found) ↦ elim (assert_subject_proposal_scope-Guards actor p opened) [
      | inr (x, q) ↦ absurd (ground arith)
      | inl (q, may) ↦ record {
        row = p;
        new = rejected_row now actor.id (some (text_or payload.note payload.reason)) p;
        found = found;
        was_pending = ground arith;
        entitled = may;
        is_closed = refl;
        reviewer = refl;
        same_id = refl;
        stored = ground arith;
      }
    ]
  ]

  pub reject_subject_refused :
      (payload : ProposalRejectRequest)
      → is_ok (request (reject_subject {E = E} now i actor payload) d out).0 ≡ false
      → ((request (reject_subject {E = E} now i actor payload) d out).1 ≡ d)
        × ((request (reject_subject {E = E} now i actor payload) d out).2 ≡ out)
  unfolding reject_subject get_proposal log_proposal
  reject_subject_refused payload bad = elim (Option-cases (get_row i d.subject_proposals)) [
    | inl lost ↦ (ground arith, ground arith)
    | inr (p, found) ↦ elim (assert_subject_proposal_scope-Guards actor p opened) [
      | inr (x, q) ↦ (ground arith, ground arith)
      | inl (q, may) ↦ (ground arith, ground arith)
    ]
  ]
