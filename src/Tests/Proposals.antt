-- ===== src/Tests/Proposals.antt =====
-- Proposals to the sample, and decisions on them.
use student_knowledge_hub.Prelude.{ℕ, none, some, List, [], ◌∷◌, arith, ◌≡◌, refl, get_row}
use student_knowledge_hub.Service.{request}
use student_knowledge_hub.Admin.Model.{open_report}
use student_knowledge_hub.Proposals.Model.{
  faculty, pending, rejected, ProposalStatus, Proposal, CatalogReport, ProposalDb, proposal_keyed,
  proposals, get_proposal, log_proposal,
}
use student_knowledge_hub.Proposals.Scope.{assert_faculty_proposal_scope}
use student_knowledge_hub.Proposals.Decision.{approve_faculty}
use student_knowledge_hub.Proposals.Outcome.{ProposalApproveRequest}
use student_knowledge_hub.Proposals.Submission.{ProposalCreate}
use student_knowledge_hub.Proposals.Reports.{matching, list_catalog_reports}
use student_knowledge_hub.Proposals.Requests.{
  approve_as_new, DecisionCall, decide, serve_decisions, ProposalCall, submission, serve_proposals,
}
use student_knowledge_hub.Proposals.Rules.{Decided}
use student_knowledge_hub.Proposals.Laws.Runs.{decide-Decided, serve_decisions_final}
use student_knowledge_hub.Proposals.Laws.Service.{IsUnambiguous, serve_proposals-IsUnambiguous}
use student_knowledge_hub.Proposals.Laws.Paging.{pages, list_catalog_reports_paged}
use student_knowledge_hub.Tests.Sample.{head_admin, author, hub}
use student_knowledge_hub.Tests.Names.{plain, plain-IsTrimmedAlike}

abbrev physics : ProposalStatus → Proposal
physics status = record {
  id = 70;
  parent_id = 30;
  proposed_name = "Physics";
  proposed_slug = none;
  proposed_code = none;
  proposed_description = none;
  created_by = 2;
  status = status;
  reviewed_by = none;
  review_note = none;
  approved_id = none;
  reviewed_at = none;
}

abbrev report_of : ℕ → CatalogReport
report_of id = record {
  id = id;
  entity_type = "subject";
  entity_id = 10;
  entity_name = "Algebra";
  reporter_id = 2;
  reviewer_id = none;
  reason = "duplicate";
  details = none;
  status = open_report;
  resolution_note = none;
  reviewed_at = none;
}

abbrev desk : ProposalStatus → ProposalDb
desk status = record {
  hub = hub;
  university_proposals = [];
  faculty_proposals = physics status ∷ [];
  subject_proposals = [];
  logs = [];
  catalog_reports = report_of 80 ∷ report_of 81 ∷ report_of 82 ∷ [];
}

abbrev as_proposed : ProposalApproveRequest
as_proposed = record {
  canonical_name = none;
  canonical_slug = none;
  canonical_description = none;
  canonical_code = none;
  note = none;
}

decide-Decided_example :
    Decided faculty 70 head_admin
      (desk pending)
      (request
        (decide {E = Unit {0}} plain 1000 70 head_admin (approve_as_new as_proposed) faculty)
        (desk pending)
        tt).1
unfolding decide approve_faculty assert_faculty_proposal_scope get_proposal log_proposal
decide-Decided_example =
    decide-Decided plain 1000 70 head_admin (desk pending) tt (approve_as_new as_proposed) faculty
      refl

abbrev too_late : List DecisionCall
too_late =
    record {
      now = 1000;
      entity_type = faculty;
      proposal_id = 70;
      actor = head_admin;
      decision = approve_as_new as_proposed;
    }
    ∷ []

serve_decisions_final_example :
    get_row 70
      (proposals faculty (serve_decisions {E = Unit {0}} plain too_late (desk rejected) tt).0)
    ≡ some (physics rejected)
serve_decisions_final_example =
    serve_decisions_final plain too_late (desk rejected) tt faculty 70 (physics rejected) refl refl

-- The second of two proposals for the same faculty comes while the first is pending.
abbrev physics_again : ProposalCreate
physics_again = record { parent_id = 30; name = "Physics"; code = none; description = none }

abbrev asked : List ProposalCall
asked = submission faculty physics_again author ∷ []

desk-IsUnambiguous : IsUnambiguous plain (desk pending)
desk-IsUnambiguous = ((λ parent_id text. ground arith), (λ parent_id text. omega arith))

serve_proposals-IsUnambiguous_example :
    IsUnambiguous plain (serve_proposals {E = Unit {0}} plain asked (desk pending) tt).0
serve_proposals-IsUnambiguous_example =
    serve_proposals-IsUnambiguous plain plain-IsTrimmedAlike asked (desk pending) tt
      desk-IsUnambiguous

list_catalog_reports_paged_example :
    pages 2 none none (desk pending) 2 ≡ matching none none (desk pending)
unfolding list_catalog_reports
list_catalog_reports_paged_example =
    list_catalog_reports_paged 2 none none (desk pending) 2 (omega arith)
