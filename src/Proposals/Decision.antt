-- ===== src/Proposals/Decision.antt =====
-- The decisions of `CatalogProposalService`: a proposal is approved as a new row of the catalogue,
-- approved as a row that is there, or rejected.
use text.Mathlib.Text.{◌==◌ as str_eq}
use student_knowledge_hub.Prelude.{ℕ, String, ◌&&◌, Option, ◌==◌, count, get_row}
use student_knowledge_hub.Service.{resource_not_found, conflict_error, gets, or_raise, ◌>>=◌, ◌>>◌}
use student_knowledge_hub.Hub.Tables.{
  User, user_keyed, university_keyed, faculty_keyed, subject_keyed,
}
use student_knowledge_hub.Catalog.Names.{Names, same_name, none_found}
use student_knowledge_hub.Proposals.Model.{
  university, faculty, subject, Proposal, proposal_keyed, Action, on_hub, get_proposal,
}
use student_knowledge_hub.Proposals.Scope.{
  require_admin, assert_faculty_proposal_scope, assert_subject_proposal_scope,
}
use student_knowledge_hub.Proposals.Outcome.{
  text_or, option_or, ProposalApproveRequest, ProposalRejectRequest, slug_of, new_university,
  new_faculty, new_subject, require_pending, settle_approval, reject_proposal,
}

module _ {E : Type 0} (names : Names) where
  abbrev ensure_university_available : String → String → Action E (Unit {0})
  ensure_university_available name slug = do
    h ← gets (λ d. d.hub)
    none_found (count (λ u. same_name names name u.name) h.universities)
        (conflict_error "University already exists")
    none_found (count (λ u. str_eq u.slug slug) h.universities)
        (conflict_error "University already exists")

  abbrev ensure_faculty_available : ℕ → String → String → Action E (Unit {0})
  ensure_faculty_available university_id name slug = do
    h ← gets (λ d. d.hub)
    none_found
        (count (λ f. f.university_id == university_id && same_name names name f.name) h.faculties)
        (conflict_error "Faculty already exists in this university")
    none_found (count (λ f. f.university_id == university_id && str_eq f.slug slug) h.faculties)
        (conflict_error "Faculty already exists in this university")

  abbrev ensure_subject_available : ℕ → String → String → Action E (Unit {0})
  ensure_subject_available faculty_id name slug = do
    h ← gets (λ d. d.hub)
    none_found (count (λ s. s.faculty_id == faculty_id && same_name names name s.name) h.subjects)
        (conflict_error "Subject already exists in this faculty")
    none_found (count (λ s. s.faculty_id == faculty_id && str_eq s.slug slug) h.subjects)
        (conflict_error "Subject already exists in this faculty")

  unfoldable pub approve_university : ℕ → ℕ → User → ProposalApproveRequest → Action E Proposal
  approve_university now proposal_id actor payload = do
    require_admin actor
    p ← get_proposal university proposal_id
    require_pending p
    let name = text_or payload.canonical_name p.proposed_name
    let slug = slug_of names payload p
    ensure_university_available name slug
    new_id ← gets (λ d. d.hub.next_id)
    on_hub (new_university name slug)
    settle_approval now university actor "approved" new_id payload.note p

  unfoldable pub approve_faculty : ℕ → ℕ → User → ProposalApproveRequest → Action E Proposal
  approve_faculty now proposal_id actor payload = do
    p ← get_proposal faculty proposal_id
    require_pending p
    assert_faculty_proposal_scope actor p
    let name = text_or payload.canonical_name p.proposed_name
    let slug = slug_of names payload p
    ensure_faculty_available p.parent_id name slug
    new_id ← gets (λ d. d.hub.next_id)
    on_hub (new_faculty p.parent_id name slug)
    settle_approval now faculty actor "approved" new_id payload.note p

  unfoldable pub approve_subject : ℕ → ℕ → User → ProposalApproveRequest → Action E Proposal
  approve_subject now proposal_id actor payload = do
    p ← get_proposal subject proposal_id
    require_pending p
    assert_subject_proposal_scope actor p
    let name = text_or payload.canonical_name p.proposed_name
    let slug = slug_of names payload p
    ensure_subject_available p.parent_id name slug
    new_id ← gets (λ d. d.hub.next_id)
    on_hub (
        new_subject p.parent_id name slug (option_or payload.canonical_code p.proposed_code)
          (option_or payload.canonical_description p.proposed_description))
    settle_approval now subject actor "approved" new_id payload.note p

module _ {E : Type 0} where
  unfoldable pub map_existing_university :
      ℕ → ℕ → User → (target_id : ℕ) → Option String → Action E Proposal
  map_existing_university now proposal_id actor target_id note = do
    require_admin actor
    p ← get_proposal university proposal_id
    require_pending p
    found ← gets (λ d. get_row target_id d.hub.universities)
    or_raise found (resource_not_found "University not found")
    settle_approval now university actor "mapped_to_existing" target_id note p

  unfoldable pub map_existing_faculty :
      ℕ → ℕ → User → (target_id : ℕ) → Option String → Action E Proposal
  map_existing_faculty now proposal_id actor target_id note = do
    p ← get_proposal faculty proposal_id
    require_pending p
    assert_faculty_proposal_scope actor p
    found ← gets (λ d. get_row target_id d.hub.faculties)
    or_raise found (resource_not_found "Faculty not found")
    settle_approval now faculty actor "mapped_to_existing" target_id note p

  unfoldable pub map_existing_subject :
      ℕ → ℕ → User → (target_id : ℕ) → Option String → Action E Proposal
  map_existing_subject now proposal_id actor target_id note = do
    p ← get_proposal subject proposal_id
    require_pending p
    assert_subject_proposal_scope actor p
    found ← gets (λ d. get_row target_id d.hub.subjects)
    or_raise found (resource_not_found "Subject not found")
    settle_approval now subject actor "mapped_to_existing" target_id note p

  unfoldable pub reject_university : ℕ → ℕ → User → ProposalRejectRequest → Action E Proposal
  reject_university now proposal_id actor payload = do
    require_admin actor
    p ← get_proposal university proposal_id
    reject_proposal now university actor payload p

  unfoldable pub reject_faculty : ℕ → ℕ → User → ProposalRejectRequest → Action E Proposal
  reject_faculty now proposal_id actor payload = do
    p ← get_proposal faculty proposal_id
    assert_faculty_proposal_scope actor p
    reject_proposal now faculty actor payload p

  unfoldable pub reject_subject : ℕ → ℕ → User → ProposalRejectRequest → Action E Proposal
  reject_subject now proposal_id actor payload = do
    p ← get_proposal subject proposal_id
    assert_subject_proposal_scope actor p
    reject_proposal now subject actor payload p
