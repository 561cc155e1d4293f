-- ===== src/Proposals/Laws/PendingNames.antt =====
-- The names of the pending proposals, through submissions and decisions.
use text.Mathlib.Text.{◌==◌ as str_eq}
use text.Mathlib.TextEquality.{eq_iff}
use student_knowledge_hub.Prelude.{
  ℕ, ◌≤◌, String, Bool, true, false, ◌&&◌, List, [], ◌∷◌, ◌++◌, ◌==◌, count, count-append, put_row,
  Bool-cases, inl, inr, ◌≡◌, ◌⊎◌, ◌∙◌, sym, subst, arith,
}
use student_knowledge_hub.Service.{request}
use student_knowledge_hub.Hub.Tables.{User}
use student_knowledge_hub.Catalog.Names.{Names}
use student_knowledge_hub.Proposals.Model.{
  is_pending, Proposal, ProposalDb, proposal_keyed, log_proposal,
}
use student_knowledge_hub.Proposals.Submission.{
  ProposalCreate, submitted, pending_same_name, create_university_proposal, create_faculty_proposal,
  create_subject_proposal,
}

-- A submission adds no row, or one whose name no pending row of its parent has.
abbrev pub Adds : Names → ℕ → ProposalCreate → User → List Proposal → List Proposal → Type 0
Adds names id payload user ps ps' =
    (ps' ≡ ps)
    ⊎ ((count (pending_same_name names payload.parent_id (names.strip payload.name)) ps ≡ 0)
        × (ps' ≡ ps ++ submitted names id payload.parent_id payload user ∷ []))

module _ {E : Type 0} (names : Names) (payload : ProposalCreate) (user : User) (d : ProposalDb)
    (out : E) where
  pub create_faculty_proposal-Adds :
      Adds names d.hub.next_id payload user d.faculty_proposals
        (request (create_faculty_proposal names payload user) d out).1.faculty_proposals
  unfolding create_faculty_proposal log_proposal
  create_faculty_proposal-Adds = ground arith

  pub create_subject_proposal-Adds :
      Adds names d.hub.next_id payload user d.subject_proposals
        (request (create_subject_proposal names payload user) d out).1.subject_proposals
  unfolding create_subject_proposal log_proposal
  create_subject_proposal-Adds = ground arith

  pub create_faculty_proposal_subjects :
      (request (create_faculty_proposal names payload user) d out).1.subject_proposals
      ≡ d.subject_proposals
  unfolding create_faculty_proposal log_proposal
  create_faculty_proposal_subjects = ground arith

  pub create_subject_proposal_faculties :
      (request (create_subject_proposal names payload user) d out).1.faculty_proposals
      ≡ d.faculty_proposals
  unfolding create_subject_proposal log_proposal
  create_subject_proposal_faculties = ground arith

  pub create_university_proposal_others :
      ((request (create_university_proposal names payload user) d out).1.faculty_proposals
        ≡ d.faculty_proposals)
      × ((request (create_university_proposal names payload user) d out).1.subject_proposals
          ≡ d.subject_proposals)
  unfolding create_university_proposal log_proposal
  create_university_proposal_others = ground arith

-- A pending proposal of a parent with a name, as the database reads the names.
abbrev pub is_named : Names → ℕ → String → Proposal → Bool
is_named names parent_id text p =
    p.parent_id == parent_id
    && (is_pending p.status && str_eq (names.sql_lower_trim p.proposed_name) text)

abbrev pub HasDistinctNames : Names → List Proposal → Type 0
HasDistinctNames names ps =
    (parent_id : ℕ) (text : String) → count (is_named names parent_id text) ps ≤ 1

-- What the two ways to compare names have in common.
abbrev pub IsTrimmedAlike : Names → Type 0
IsTrimmedAlike names =
    (x : String) → names.sql_lower_trim (names.strip x) ≡ names.normalize_name (names.strip x)

module _ (names : Names) where
  pub Adds-HasDistinctNames :
      (id : ℕ) (payload : ProposalCreate) (user : User) (ps ps' : List Proposal)
      → IsTrimmedAlike names
      → Adds names id payload user ps ps'
      → HasDistinctNames names ps
      → HasDistinctNames names ps'
  Adds-HasDistinctNames id payload user ps ps' alike (inl same) distinct =
      subst (HasDistinctNames names) (sym same) distinct
  Adds-HasDistinctNames id payload user ps ps' alike (inr (free, more)) distinct =
      subst (HasDistinctNames names) (sym more) (λ parent_id text.
        let p = submitted names id payload.parent_id payload user in
        elim (Bool-cases (is_named names parent_id text p)) [
          | inl named ↦ ground (
            arith,
            count-append (is_named names parent_id text) ps (p ∷ []),
            taken parent_id text named,
          )
          | inr other ↦ ground (
            arith,
            count-append (is_named names parent_id text) ps (p ∷ []),
            distinct parent_id text,
          )
        ])
    where
      taken :
          (parent_id : ℕ) (text : String)
          → is_named names parent_id text (submitted names id payload.parent_id payload user) ≡ true
          → count (is_named names parent_id text) ps ≡ 0
      taken parent_id text named =
          let same_parent : payload.parent_id ≡ parent_id = ground arith in
          let same_text =
            (eq_iff (names.sql_lower_trim (names.strip payload.name)) text).0 (ground arith) in
          subst (λ (i : ℕ). count (is_named names i text) ps ≡ 0) same_parent
            (subst (λ (t : String). count (is_named names payload.parent_id t) ps ≡ 0)
              (sym (alike payload.name) ∙ same_text) free)

  pub put_row-HasDistinctNames :
      (new : Proposal) (ps : List Proposal)
      → is_pending new.status ≡ false
      → HasDistinctNames names ps
      → HasDistinctNames names (put_row new ps)
  put_row-HasDistinctNames new ps closed distinct parent_id text =
      ground (arith, distinct parent_id text, fewer ps)
    where
      fewer :
          (ps : List Proposal)
          → count (is_named names parent_id text) (put_row new ps)
            ≤ count (is_named names parent_id text) ps
      fewer [] = omega arith
      fewer (p ∷ ps) = ground (arith, fewer ps)
