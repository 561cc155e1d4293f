-- ===== src/Proposals/Rules.antt =====
-- The rules of a decision: who may make it, and what it may change.
use student_knowledge_hub.Prelude.{
  ℕ, Bool, true, false, ◌||◌, Option, none, some, ◌==◌, contains, count, get_row, put_row, inl, inr,
  ◌≡◌, ◌⊎◌, refl, arith,
}
use student_knowledge_hub.Service.{Session, AppError, Result, ok, err, is_ok}
use student_knowledge_hub.Hub.Tables.{is_admin, User, Faculty, Hub, faculty_keyed}
use student_knowledge_hub.Proposals.Model.{
  ProposalEntityType, university, faculty, subject, is_pending, Proposal, ProposalDb,
  proposal_keyed, proposals, set_proposals, Action,
}
use student_knowledge_hub.Proposals.Scope.{
  university_ids, faculty_ids, subject_ids, scoped_subject, require_admin,
  assert_faculty_proposal_scope, assert_subject_proposal_scope,
}

abbrev in_subject_scope : Hub → User → ℕ → Option Faculty → Bool
in_subject_scope h actor faculty_id none = false
in_subject_scope h actor faculty_id (some f) =
    contains f.university_id (university_ids actor.id h)
    || contains faculty_id (faculty_ids actor.id h)
    || count (scoped_subject (subject_ids actor.id h) faculty_id) h.subjects == 1

-- Who may decide: an admin; on a faculty, a moderator of its university; on a subject, a moderator of
-- its faculty's university, of its faculty, or of exactly one subject of the faculty.
unfoldable pub may_decide : ProposalEntityType → Hub → User → Proposal → Bool
may_decide university h actor p = is_admin actor.role
may_decide faculty h actor p =
    is_admin actor.role || contains p.parent_id (university_ids actor.id h)
may_decide subject h actor p =
    is_admin actor.role || in_subject_scope h actor p.parent_id (get_row p.parent_id h.faculties)

-- A decision has found a pending proposal, by an actor who may decide on it; its row is closed, and no
-- other proposal changes.
pub record Decided (e : ProposalEntityType) (proposal_id : ℕ) (actor : User) (d d' : ProposalDb)
    : Type 0 where
  pub row : Proposal
  pub new : Proposal
  pub found : get_row proposal_id (proposals e d) ≡ some row
  pub was_pending : is_pending row.status ≡ true
  pub entitled : may_decide e d.hub actor row ≡ true
  pub is_closed : is_pending new.status ≡ false
  pub reviewer : new.reviewed_by ≡ some actor.id
  pub same_id : new.id ≡ row.id
  pub stored :
      d' ≡ record (set_proposals e (put_row new (proposals e d)) d) { hub = d'.hub; logs = d'.logs }

-- A guard lets pass, or raises; it changes nothing.
abbrev pub Guards : {E : Type 0} → Action E (Unit {0}) → Bool → Session ProposalDb E → Type 0
Guards guard allowed s =
    ((guard s ≡ (ok tt, s)) × (allowed ≡ true)) ⊎ ((x : AppError) × (guard s ≡ (err x, s)))

guards :
    {E : Type 0} (guard : Action E (Unit {0})) (allowed : Bool) (s : Session ProposalDb E)
    → (guard s).1 ≡ s
    → is_ok (guard s).0 ≡ allowed
    → Guards guard allowed s
guards {E} guard allowed s keeps passes = go (guard s) refl
  where
    go : (a : Result (Unit {0}) × Session ProposalDb E) → guard s ≡ a → Guards guard allowed s
    go (ok tt, s') h = inl (cc (h, keeps), cc (h, passes))
    go (err x, s') h = inr (x, cc (h, keeps))

module _ {E : Type 0} (actor : User) (p : Proposal) (s : Session ProposalDb E) where
  pub require_admin-Guards :
      Guards (require_admin {E = E} actor) (may_decide university s.work.hub actor p) s
  unfolding require_admin may_decide
  require_admin-Guards = guards (require_admin actor) _ s (ground arith) (ground arith)

  pub assert_faculty_proposal_scope-Guards :
      Guards
        (assert_faculty_proposal_scope {E = E} actor p)
        (may_decide faculty s.work.hub actor p)
        s
  unfolding assert_faculty_proposal_scope may_decide
  assert_faculty_proposal_scope-Guards =
      guards (assert_faculty_proposal_scope actor p) _ s (ground arith) (ground arith)

  pub assert_subject_proposal_scope-Guards :
      Guards
        (assert_subject_proposal_scope {E = E} actor p)
        (may_decide subject s.work.hub actor p)
        s
  unfolding assert_subject_proposal_scope may_decide
  assert_subject_proposal_scope-Guards =
      guards (assert_subject_proposal_scope actor p) _ s (ground arith) (ground arith)
