-- ===== src/Proposals/Scope.antt =====
-- Who may decide on which proposal, and which proposals a moderator finds listed: the guards and the
-- `_list_pending` queries of `CatalogProposalService`.
use student_knowledge_hub.Prelude.{
  ℕ, Bool, true, false, ◌&&◌, ◌||◌, Option, none, some, List, [], ◌∷◌, not, ◌==◌, any, contains,
  filter, count, get_row, if◌then◌else◌,
}
use student_knowledge_hub.Service.{
  resource_not_found, permission_denied, runtime_error, raise, skip, gets, or_raise, raise_if,
  ◌>>=◌, ◌>>◌,
}
use student_knowledge_hub.Hub.Tables.{is_admin, User, Faculty, Subject, Hub, faculty_keyed}
use student_knowledge_hub.Materials.Moderation.{targets_of}
use student_knowledge_hub.Proposals.Model.{is_pending, Proposal, ProposalDb, Action}

-- `_scope_ids`
abbrev pub university_ids : ℕ → Hub → List ℕ
university_ids user_id h = targets_of user_id h.university_scopes

abbrev pub faculty_ids : ℕ → Hub → List ℕ
faculty_ids user_id h = targets_of user_id h.faculty_scopes

abbrev pub subject_ids : ℕ → Hub → List ℕ
subject_ids user_id h = targets_of user_id h.subject_scopes

abbrev is_nonempty : List ℕ → Bool
is_nonempty [] = false
is_nonempty (i ∷ is) = true

-- `Subject.id.in_(sub_ids), Subject.faculty_id == faculty_id`
abbrev pub scoped_subject : List ℕ → ℕ → Subject → Bool
scoped_subject ids faculty_id s = contains s.id ids && s.faculty_id == faculty_id

module _ {E : Type 0} where
  unfoldable pub require_admin : User → Action E (Unit {0})
  require_admin actor =
      raise_if (not (is_admin actor.role)) (permission_denied "Admin access required")

  abbrev outside_scope : Action E (Unit {0})
  outside_scope = raise (permission_denied "Proposal is outside your moderation scope")

  unfoldable pub assert_faculty_proposal_scope : User → Proposal → Action E (Unit {0})
  assert_faculty_proposal_scope actor p = if is_admin actor.role then skip else do
    ids ← gets (λ d. university_ids actor.id d.hub)
    if contains p.parent_id ids then skip else outside_scope

  -- `scalar_one_or_none()` raises where the moderator has two subjects of the faculty.
  abbrev subject_match : ℕ → Action E (Unit {0})
  subject_match rows =
      if rows == 0
      then outside_scope
      else if rows == 1
      then skip
      else raise (runtime_error "MultipleResultsFound")

  unfoldable pub assert_subject_proposal_scope : User → Proposal → Action E (Unit {0})
  assert_subject_proposal_scope actor p = if is_admin actor.role then skip else do
    h ← gets (λ d. d.hub)
    f ← or_raise (get_row p.parent_id h.faculties) (resource_not_found "Faculty not found")
    if contains f.university_id (university_ids actor.id h)
          || contains p.parent_id (faculty_ids actor.id h)
        then skip
        else subject_match (count (scoped_subject (subject_ids actor.id h) p.parent_id) h.subjects)

-- The conditions of the three queries of pending proposals, for an actor who is no admin.
abbrev faculty_listed : User → Hub → Proposal → Bool
faculty_listed actor h p =
    contains p.parent_id (university_ids actor.id h)
    || any (λ f. contains f.id (faculty_ids actor.id h) && f.university_id == p.parent_id)
        h.faculties

abbrev subject_listed_in : User → Hub → ℕ → Option Faculty → Bool
subject_listed_in actor h faculty_id none = false
subject_listed_in actor h faculty_id (some f) =
    contains f.university_id (university_ids actor.id h)
    || contains faculty_id (faculty_ids actor.id h)
    || any (scoped_subject (subject_ids actor.id h) faculty_id) h.subjects

-- `_list_pending_faculty_proposals` and `_list_pending_subject_proposals`: rows stand as created. The
-- join on the faculty drops no row, by the foreign key.
unfoldable pub list_pending_faculty_proposals : User → ProposalDb → List Proposal
list_pending_faculty_proposals actor d =
    filter (λ p. is_pending p.status && (is_admin actor.role || faculty_listed actor d.hub p))
      d.faculty_proposals

unfoldable pub list_pending_subject_proposals : User → ProposalDb → List Proposal
list_pending_subject_proposals actor d =
    filter
      (λ p.
        is_pending p.status
        && (is_admin actor.role
            || subject_listed_in actor d.hub p.parent_id (get_row p.parent_id d.hub.faculties)))
      d.subject_proposals

module _ {E : Type 0} where
  unfoldable pub list_pending_university_proposals : User → Action E (List Proposal)
  unfolding require_admin
  list_pending_university_proposals actor = do
    require_admin actor
    gets (λ d. filter (λ p. is_pending p.status) d.university_proposals)
