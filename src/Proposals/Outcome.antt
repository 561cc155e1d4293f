-- ===== src/Proposals/Outcome.antt =====
-- What a decision on a proposal does: the rows of the proposal, of the catalogue and of the user who
-- registered with it (app/modules/catalog_proposals/service.py).
use text.Mathlib.Text.{◌==◌ as str_eq}
use student_knowledge_hub.Prelude.{
  ℕ, ◌+◌, String, Bool, true, false, ◌&&◌, Option, none, some, [], ◌∷◌, ◌++◌, not, get_row, put_row,
  is_none, if◌then◌else◌,
}
use student_knowledge_hub.Service.{conflict_error, pure, raise_if, modify, commit, ◌>>◌}
use student_knowledge_hub.Hub.Tables.{
  UniversityStatus, selected, awaiting, declined, User, Hub, proposal_approved, proposal_rejected,
  Payload, user_keyed, university_keyed, faculty_keyed, subject_keyed,
}
use student_knowledge_hub.Hub.Events.{enqueue_proposal_owner_event}
use student_knowledge_hub.Catalog.Names.{Names, slugify}
use student_knowledge_hub.Proposals.Model.{
  ProposalEntityType, university, type_name, entity_value, approved, rejected, is_pending, Proposal,
  ProposalDb, proposal_keyed, proposals, set_proposals, Action, on_hub, log_proposal,
}

-- `a or b` of texts: none and the empty text are false.
abbrev pub text_or : Option String → String → String
text_or none b = b
text_or (some a) b = if str_eq a "" then b else a

abbrev pub option_or : Option String → Option String → Option String
option_or none b = b
option_or (some a) b = if str_eq a "" then b else some a

pub record ProposalApproveRequest : Type 0 where
  pub canonical_name : Option String
  pub canonical_slug : Option String
  pub canonical_description : Option String
  pub canonical_code : Option String
  pub note : Option String

pub record ProposalRejectRequest : Type 0 where
  pub reason : String
  pub note : Option String

abbrev pub waits : UniversityStatus → Bool
waits selected = false
waits _ = true

-- The registration of a user who waits for their university: `university_status in {"pending",
-- "rejected"}` and no university.
abbrev pub may_be_settled : User → Bool
may_be_settled u = is_none u.university_id && waits u.university_status

abbrev pub is_awaiting : UniversityStatus → Bool
is_awaiting awaiting = true
is_awaiting _ = false

abbrev settled : ℕ → ℕ → Option User → Hub → Hub
settled now university_id none h = h
settled now university_id (some u) h =
    if may_be_settled u
    then record h {
      users =
          put_row
            (record u {
              university_id = some university_id;
              pending_university_name = none;
              university_status = selected;
              university_changed_at = some now;
            })
            h.users;
    }
    else h

-- `_apply_approved_university_to_registration_user`
unfoldable pub apply_approved_university : ℕ → Proposal → ℕ → Hub → Hub
apply_approved_university now p university_id h =
    settled now university_id (get_row p.created_by h.users) h

abbrev refused : Option User → Hub → Hub
refused none h = h
refused (some u) h =
    if is_none u.university_id && is_awaiting u.university_status
    then record h { users = put_row (record u { university_status = declined }) h.users }
    else h

-- `_mark_registration_university_rejected`
unfoldable pub mark_registration_university_rejected : Proposal → Hub → Hub
mark_registration_university_rejected p h = refused (get_row p.created_by h.users) h

-- The effect of a decision on the user who registered with the university.
abbrev on_registration : ℕ → ProposalEntityType → Proposal → Option ℕ → Hub → Hub
on_registration now university p (some i) = apply_approved_university now p i
on_registration now university p none = mark_registration_university_rejected p
on_registration now _ p i = λ h. h

-- The row of a decided proposal.
abbrev pub approved_row : ℕ → ℕ → ℕ → Option String → Proposal → Proposal
approved_row now actor_id approved_id note p = record p {
  status = approved;
  reviewed_by = some actor_id;
  reviewed_at = some now;
  review_note = note;
  approved_id = some approved_id;
}

abbrev pub rejected_row : ℕ → ℕ → Option String → Proposal → Proposal
rejected_row now actor_id note p = record p {
  status = rejected;
  reviewed_by = some actor_id;
  reviewed_at = some now;
  review_note = note;
}

abbrev pub save_proposal : ProposalEntityType → Proposal → ProposalDb → ProposalDb
save_proposal e p d = set_proposals e (put_row p (proposals e d)) d

abbrev pub slug_of : Names → ProposalApproveRequest → Proposal → String
slug_of names payload p =
    text_or payload.canonical_slug (text_or p.proposed_slug (slugify names p.proposed_name))

abbrev pub new_university : String → String → Hub → Hub
new_university name slug h = record h {
  universities = h.universities ++ record { id = h.next_id; name = name; slug = slug } ∷ [];
  next_id = h.next_id + 1;
}

abbrev pub new_faculty : ℕ → String → String → Hub → Hub
new_faculty university_id name slug h = record h {
  faculties =
      h.faculties
      ++ record { id = h.next_id; university_id = university_id; name = name; slug = slug } ∷ [];
  next_id = h.next_id + 1;
}

abbrev pub new_subject : ℕ → String → String → Option String → Option String → Hub → Hub
new_subject faculty_id name slug code description h = record h {
  subjects =
      h.subjects
      ++ record {
        id = h.next_id;
        faculty_id = faculty_id;
        name = name;
        slug = slug;
        code = code;
        description = description;
      }
        ∷ [];
  next_id = h.next_id + 1;
}

module _ {E : Type 0} where
  abbrev pub require_pending : Proposal → Action E (Unit {0})
  require_pending p =
      raise_if (not (is_pending p.status)) (conflict_error "Proposal is not pending")

  -- What every approval does once the row of the catalogue is known.
  abbrev pub settle_approval :
      ℕ → ProposalEntityType → User → String → ℕ → Option String → Proposal → Action E Proposal
  settle_approval now e actor action approved_id note p = do
    let p' = approved_row now actor.id approved_id note p
    modify (save_proposal e p')
    on_hub (on_registration now e p (some approved_id))
    log_proposal e p.id action actor.id note
    on_hub (
        enqueue_proposal_owner_event proposal_approved p.id p.created_by
          (Payload.of_decision p.id (type_name e) p.proposed_name actor.id note))
    commit
    pure p'

  -- `_reject_proposal`; the event names the type as `entity_type.value`.
  abbrev pub reject_proposal :
      ℕ → ProposalEntityType → User → ProposalRejectRequest → Proposal → Action E Proposal
  reject_proposal now e actor payload p = do
    require_pending p
    let note = some (text_or payload.note payload.reason)
    let p' = rejected_row now actor.id note p
    modify (save_proposal e p')
    on_hub (on_registration now e p none)
    log_proposal e p.id "rejected" actor.id note
    on_hub (
        enqueue_proposal_owner_event proposal_rejected p.id p.created_by
          (Payload.of_decision p.id (entity_value e) p.proposed_name actor.id note))
    commit
    pure p'
