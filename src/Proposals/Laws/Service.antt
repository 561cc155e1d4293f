-- ===== src/Proposals/Laws/Service.antt =====
-- Runs of submissions and decisions.
use student_knowledge_hub.Prelude.{
  false, List, [], ◌∷◌, put_row, Bool-cases, inl, inr, ◌≡◌, sym, subst,
}
use student_knowledge_hub.Service.{is_ok, request}
use student_knowledge_hub.Hub.Tables.{User, Hub}
use student_knowledge_hub.Catalog.Names.{Names}
use student_knowledge_hub.Proposals.Model.{
  ProposalEntityType, university, faculty, subject, is_pending, Proposal, ProposalDb,
  proposal_keyed, proposals, set_proposals, CatalogProposalLog,
}
use student_knowledge_hub.Proposals.Submission.{ProposalCreate}
use student_knowledge_hub.Proposals.Requests.{
  ProposalCall, submission, ruling, submit_proposal, serve_proposal, serve_proposals,
  decision_answer,
}
use student_knowledge_hub.Proposals.Laws.Runs.{decide-Decided, decide_refused}
use student_knowledge_hub.Proposals.Laws.PendingNames.{
  HasDistinctNames, IsTrimmedAlike, Adds-HasDistinctNames, put_row-HasDistinctNames,
  create_faculty_proposal-Adds, create_subject_proposal-Adds, create_faculty_proposal_subjects,
  create_subject_proposal_faculties, create_university_proposal_others,
}

-- No two pending proposals of one university, or of one faculty, have the same name.
abbrev pub IsUnambiguous : Names → ProposalDb → Type 0
IsUnambiguous names d =
    HasDistinctNames names d.faculty_proposals × HasDistinctNames names d.subject_proposals

closing :
    (names : Names) (e : ProposalEntityType) (new : Proposal) (d : ProposalDb) (h : Hub)
    (logs : List CatalogProposalLog)
    → is_pending new.status ≡ false
    → IsUnambiguous names d
    → IsUnambiguous names
        (record (set_proposals e (put_row new (proposals e d)) d) { hub = h; logs = logs })
closing names university new d h logs closed u = u
closing names faculty new d h logs closed u =
    (put_row-HasDistinctNames names new d.faculty_proposals closed u.0, u.1)
closing names subject new d h logs closed u =
    (u.0, put_row-HasDistinctNames names new d.subject_proposals closed u.1)

module _ {E : Type 0} (names : Names) (alike : IsTrimmedAlike names) where
  submit_proposal-IsUnambiguous :
      (e : ProposalEntityType) (payload : ProposalCreate) (user : User) (d : ProposalDb) (out : E)
      → IsUnambiguous names d
      → IsUnambiguous names (request (submit_proposal {E = E} names e payload user) d out).1
  unfolding submit_proposal
  submit_proposal-IsUnambiguous university payload user d out u =
      let others = create_university_proposal_others names payload user d out in
      (
        subst (HasDistinctNames names) (sym others.0) u.0,
        subst (HasDistinctNames names) (sym others.1) u.1,
      )
  submit_proposal-IsUnambiguous faculty payload user d out u = (
    Adds-HasDistinctNames names d.hub.next_id payload user d.faculty_proposals _ alike
        (create_faculty_proposal-Adds names payload user d out) u.0,
    subst (HasDistinctNames names) (sym (create_faculty_proposal_subjects names payload user d out))
        u.1,
  )
  submit_proposal-IsUnambiguous subject payload user d out u = (
    subst (HasDistinctNames names)
        (sym (create_subject_proposal_faculties names payload user d out)) u.0,
    Adds-HasDistinctNames names d.hub.next_id payload user d.subject_proposals _ alike
        (create_subject_proposal-Adds names payload user d out) u.1,
  )

  serve_proposal-IsUnambiguous :
      (c : ProposalCall) (d : ProposalDb) (out : E)
      → IsUnambiguous names d
      → IsUnambiguous names (serve_proposal names c d out).1
  serve_proposal-IsUnambiguous (submission e payload user) d out u =
      submit_proposal-IsUnambiguous e payload user d out u
  serve_proposal-IsUnambiguous (ruling c) d out u =
      elim (Bool-cases (is_ok (decision_answer names c d out).0)) [
        | inl good ↦
            let d' = (decision_answer names c d out).1 in
            let f =
              decide-Decided names c.now c.proposal_id c.actor d out c.decision c.entity_type
                good in
            subst (IsUnambiguous names) (sym f.stored)
              (closing names c.entity_type f.new d d'.hub d'.logs f.is_closed u)
        | inr bad ↦
            subst (IsUnambiguous names)
              (sym
                (decide_refused names c.now c.proposal_id c.actor d out c.decision c.entity_type
                  bad).0)
              u
      ]

  -- Where the two ways to compare names agree on a stripped name: whatever proposals are submitted and
  -- whatever decisions are made, in any order, no two pending proposals for faculties of one university
  -- come to have the same name, nor two for subjects of one faculty.
  pub serve_proposals-IsUnambiguous :
      (cs : List ProposalCall) (d : ProposalDb) (out : E)
      → IsUnambiguous names d
      → IsUnambiguous names (serve_proposals names cs d out).0
  unfolding serve_proposals
  serve_proposals-IsUnambiguous [] d out u = u
  serve_proposals-IsUnambiguous (c ∷ cs) d out u =
      let a = serve_proposal names c d out in
      serve_proposals-IsUnambiguous cs a.1 a.2 (serve_proposal-IsUnambiguous c d out u)
