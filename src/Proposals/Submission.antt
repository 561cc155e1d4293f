-- ===== src/Proposals/Submission.antt =====
-- The submissions of `CatalogProposalService` (app/modules/catalog_proposals/service.py): a new
-- university, faculty or subject, and the home university of a user.
use text.Mathlib.Text.{◌==◌ as str_eq}
use student_knowledge_hub.Prelude.{
  ℕ, ◌+◌, ◌*◌, String, Bool, false, ◌&&◌, ◌||◌, Option, none, some, List, [], ◌∷◌, ◌++◌, ◌==◌, ltb,
  count, get_row, put_row, filter,
}
use student_knowledge_hub.Service.{
  resource_not_found, conflict_error, validation_error, pure, gets, or_raise, raise_if, modify,
  commit, ◌>>=◌, ◌>>◌,
}
use student_knowledge_hub.Hub.Tables.{
  selected, User, University, user_keyed, university_keyed, faculty_keyed, subject_keyed,
}
use student_knowledge_hub.Hub.Events.{
  ProposalTarget, university_proposal, faculty_proposal, subject_proposal,
  enqueue_proposal_created_events,
}
use student_knowledge_hub.Catalog.Names.{Names, slugify, same_name, none_found}
use student_knowledge_hub.Proposals.Model.{
  ProposalEntityType, university, faculty, subject, type_name, pending, is_pending, Proposal,
  ProposalDb, proposals, set_proposals, Action, on_hub, log_proposal,
}

-- `UniversityProposalCreate`, `FacultyProposalCreate` and `SubjectProposalCreate`.
pub record ProposalCreate : Type 0 where
  pub parent_id : ℕ
  pub name : String
  pub code : Option String
  pub description : Option String

abbrev opt_slug_eq : String → Option String → Bool
opt_slug_eq slug none = false
opt_slug_eq slug (some s) = str_eq s slug

module _ (names : Names) where
  -- The row that a submission adds; a university has no parent.
  abbrev pub submitted : ℕ → ℕ → ProposalCreate → User → Proposal
  submitted id parent_id payload user = record {
    id = id;
    parent_id = parent_id;
    proposed_name = names.strip payload.name;
    proposed_slug = some (slugify names (names.strip payload.name));
    proposed_code = payload.code;
    proposed_description = payload.description;
    created_by = user.id;
    status = pending;
    reviewed_by = none;
    review_note = none;
    approved_id = none;
    reviewed_at = none;
  }

  -- `name.ilike(proposed_name) or slug == slugify(proposed_name)`
  abbrev pub taken_by : String → String → String → Bool
  taken_by name stored_name stored_slug =
      names.ilike stored_name name || str_eq stored_slug (slugify names name)

  abbrev pub pending_taken_by : String → Proposal → Bool
  pending_taken_by name p =
      is_pending p.status
      && (names.ilike p.proposed_name name || opt_slug_eq (slugify names name) p.proposed_slug)

  -- The pending proposals of a parent whose name is the same once trimmed and in lower case.
  abbrev pub pending_same_name : ℕ → String → Proposal → Bool
  pending_same_name parent_id name p =
      p.parent_id == parent_id && (is_pending p.status && same_name names name p.proposed_name)

  module _ {E : Type 0} where
    -- What every submission does once its name is known to be free.
    abbrev pub add_proposal :
        ProposalEntityType → ℕ → ProposalTarget → ProposalCreate → User → Action E Proposal
    add_proposal e parent_id target payload user = do
      new_id ← gets (λ d. d.hub.next_id)
      let p = submitted new_id parent_id payload user
      modify (λ d. set_proposals e (proposals e d ++ p ∷ []) d)
      on_hub (λ h. record h { next_id = h.next_id + 1 })
      log_proposal e p.id "submitted" user.id none
      on_hub (enqueue_proposal_created_events p.id target (type_name e))
      commit
      pure p

    unfoldable pub create_university_proposal : ProposalCreate → User → Action E Proposal
    create_university_proposal payload user = do
      let name = names.strip payload.name
      raise_if (str_eq name "") (validation_error "University name is required")
      d ← gets (λ d. d)
      none_found (count (λ (u : University). taken_by name u.name u.slug) d.hub.universities)
          (conflict_error "University already exists")
      none_found (count (pending_taken_by name) d.university_proposals)
          (conflict_error "University proposal already exists")
      add_proposal university 0 university_proposal payload user

    unfoldable pub create_faculty_proposal : ProposalCreate → User → Action E Proposal
    create_faculty_proposal payload user = do
      d ← gets (λ d. d)
      or_raise (get_row payload.parent_id d.hub.universities)
          (resource_not_found "University not found")
      let name = names.strip payload.name
      none_found
          (count (λ f. f.university_id == payload.parent_id && same_name names name f.name)
            d.hub.faculties)
          (conflict_error "Faculty already exists in this university")
      none_found (count (pending_same_name payload.parent_id name) d.faculty_proposals)
          (conflict_error "Faculty proposal with this name is already pending in the university")
      none_found
          (count (λ f. f.university_id == payload.parent_id && taken_by name f.name f.slug)
            d.hub.faculties)
          (conflict_error "Faculty already exists in this university")
      add_proposal faculty payload.parent_id (faculty_proposal payload.parent_id) payload user

    unfoldable pub create_subject_proposal : ProposalCreate → User → Action E Proposal
    create_subject_proposal payload user = do
      d ← gets (λ d. d)
      or_raise (get_row payload.parent_id d.hub.faculties) (resource_not_found "Faculty not found")
      let name = names.strip payload.name
      none_found
          (count (λ s. s.faculty_id == payload.parent_id && same_name names name s.name)
            d.hub.subjects)
          (conflict_error "Subject already exists in this faculty")
      none_found (count (pending_same_name payload.parent_id name) d.subject_proposals)
          (conflict_error "Subject proposal with this name is already pending in the faculty")
      none_found
          (count (λ s. s.faculty_id == payload.parent_id && taken_by name s.name s.slug)
            d.hub.subjects)
          (conflict_error "Subject already exists in this faculty")
      add_proposal subject payload.parent_id (subject_proposal payload.parent_id) payload user

-- `HOME_UNIVERSITY_COOLDOWN_DAYS`, in seconds.
abbrev pub cooldown : ℕ
cooldown = 45 * 86400

abbrev changed_lately : ℕ → Option ℕ → Bool
changed_lately now none = false
changed_lately now (some at) = ltb now (at + cooldown)

abbrev is_home : ℕ → Option ℕ → Bool
is_home university_id none = false
is_home university_id (some i) = i == university_id

module _ {E : Type 0} where
  -- The answer is the id of the home university.
  unfoldable pub update_home_university : ℕ → User → ℕ → Action E (Option ℕ)
  update_home_university now user university_id = do
    d ← gets (λ d. d)
    or_raise (get_row university_id d.hub.universities) (resource_not_found "University not found")
    raise_if (is_home university_id user.university_id)
        (conflict_error "Home university is already set to this value")
    raise_if (changed_lately now user.university_changed_at)
        (validation_error "Home university can only be changed once every 45 days")
    let user' = record user {
      university_id = some university_id;
      university_changed_at = some now;
      pending_university_name = none;
      university_status = selected;
    }
    on_hub (λ h. record h { users = put_row user' h.users })
    commit
    pure user'.university_id

abbrev pub list_user_proposals : ProposalEntityType → User → ProposalDb → List Proposal
list_user_proposals e user d = filter (λ p. p.created_by == user.id) (proposals e d)
