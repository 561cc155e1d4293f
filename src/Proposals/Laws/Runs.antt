-- ===== src/Proposals/Laws/Runs.antt =====
-- Runs of decisions, granted or refused.
use student_knowledge_hub.Prelude.{
  ℕ, true, false, some, List, [], ◌∷◌, ◌==◌, ==_iff, find_sound, get_row, put_row,
  get_row-put_row_ne, some_injective, Bool-cases, inl, inr, ◌≡◌, ◌≢◌, ◌⊎◌, ◌∙◌, sym, subst,
}
use student_knowledge_hub.Service.{is_ok, request}
use student_knowledge_hub.Hub.Tables.{User}
use student_knowledge_hub.Catalog.Names.{Names}
use student_knowledge_hub.Proposals.Model.{
  ProposalEntityType, university, faculty, subject, is_pending, Proposal, ProposalDb,
  proposal_keyed, proposals, set_proposals,
}
use student_knowledge_hub.Proposals.Requests.{
  Decision, approve_as_new, map_existing, reject, DecisionCall, decide, decision_answer,
  serve_decisions,
}
use student_knowledge_hub.Proposals.Rules.{Decided}
use student_knowledge_hub.Proposals.Laws.University.{
  approve_university-Decided, approve_university_refused, map_existing_university-Decided,
  map_existing_university_refused, reject_university-Decided, reject_university_refused,
}
use student_knowledge_hub.Proposals.Laws.Faculty.{
  approve_faculty-Decided, approve_faculty_refused, map_existing_faculty-Decided,
  map_existing_faculty_refused, reject_faculty-Decided, reject_faculty_refused,
}
use student_knowledge_hub.Proposals.Laws.Subject.{
  approve_subject-Decided, approve_subject_refused, map_existing_subject-Decided,
  map_existing_subject_refused, reject_subject-Decided, reject_subject_refused,
}

module _ {E : Type 0} (names : Names) (now i : ℕ) (actor : User) (d : ProposalDb) (out : E) where
  -- A decision that is granted has found the proposal pending, by an actor who may decide on it: an
  -- admin, or for a faculty or a subject a moderator of it. Its row is closed with the actor as the
  -- reviewer and its id kept; no other proposal changes.
  pub decide-Decided :
      (choice : Decision) (e : ProposalEntityType)
      → is_ok (request (decide {E = E} names now i actor choice e) d out).0 ≡ true
      → Decided e i actor d (request (decide {E = E} names now i actor choice e) d out).1
  unfolding decide
  decide-Decided (approve_as_new payload) university h =
      approve_university-Decided now i actor d out names payload h
  decide-Decided (approve_as_new payload) faculty h =
      approve_faculty-Decided now i actor d out names payload h
  decide-Decided (approve_as_new payload) subject h =
      approve_subject-Decided now i actor d out names payload h
  decide-Decided (map_existing target_id remark) university h =
      map_existing_university-Decided now i actor d out target_id remark h
  decide-Decided (map_existing target_id remark) faculty h =
      map_existing_faculty-Decided now i actor d out target_id remark h
  decide-Decided (map_existing target_id remark) subject h =
      map_existing_subject-Decided now i actor d out target_id remark h
  decide-Decided (reject payload) university h =
      reject_university-Decided now i actor d out payload h
  decide-Decided (reject payload) faculty h = reject_faculty-Decided now i actor d out payload h
  decide-Decided (reject payload) subject h = reject_subject-Decided now i actor d out payload h

  -- A decision that raises leaves the database as it was, and what is outside it.
  pub decide_refused :
      (choice : Decision) (e : ProposalEntityType)
      → is_ok (request (decide {E = E} names now i actor choice e) d out).0 ≡ false
      → ((request (decide {E = E} names now i actor choice e) d out).1 ≡ d)
        × ((request (decide {E = E} names now i actor choice e) d out).2 ≡ out)
  unfolding decide
  decide_refused (approve_as_new payload) university h =
      approve_university_refused now i actor d out names payload h
  decide_refused (approve_as_new payload) faculty h =
      approve_faculty_refused now i actor d out names payload h
  decide_refused (approve_as_new payload) subject h =
      approve_subject_refused now i actor d out names payload h
  decide_refused (map_existing target_id remark) university h =
      map_existing_university_refused now i actor d out target_id remark h
  decide_refused (map_existing target_id remark) faculty h =
      map_existing_faculty_refused now i actor d out target_id remark h
  decide_refused (map_existing target_id remark) subject h =
      map_existing_subject_refused now i actor d out target_id remark h
  decide_refused (reject payload) university h =
      reject_university_refused now i actor d out payload h
  decide_refused (reject payload) faculty h = reject_faculty_refused now i actor d out payload h
  decide_refused (reject payload) subject h = reject_subject_refused now i actor d out payload h

-- Two rows of one table, only one of them pending, have different ids.
apart :
    (i j : ℕ) (p row : Proposal) (ps : List Proposal)
    → get_row i ps ≡ some row
    → is_pending row.status ≡ true
    → get_row j ps ≡ some p
    → is_pending p.status ≡ false
    → j ≢ i
apart i j p row ps found was at closed same =
    let row_is_p = some_injective (sym found ∙ subst (λ (x : ℕ). get_row x ps ≡ some p) same at) in
    cc (was, closed, row_is_p)

same_table :
    (i j : ℕ) (p row new : Proposal) (ps : List Proposal)
    → get_row i ps ≡ some row
    → is_pending row.status ≡ true
    → new.id ≡ row.id
    → get_row j ps ≡ some p
    → is_pending p.status ≡ false
    → get_row j (put_row new ps) ≡ some p
same_table i j p row new ps found was same_id at closed =
    let row_id = (==_iff row.id i).0 (find_sound (λ (x : Proposal). x.id == i) ps found) in
    get_row-put_row_ne j new ps
      (λ h. apart i j p row ps found was at closed (sym h ∙ same_id ∙ row_id))
    ∙ at

-- A row that is not pending is not touched by a decision, whichever it is for.
stays :
    (e e' : ProposalEntityType) (i j : ℕ) (actor : User) (d d' : ProposalDb) (p : Proposal)
    → Decided e i actor d d'
    → get_row j (proposals e' d) ≡ some p
    → is_pending p.status ≡ false
    → get_row j (proposals e' d') ≡ some p
stays e e' i j actor d d' p f at closed =
    subst (λ (x : ProposalDb). get_row j (proposals e' x) ≡ some p) (sym f.stored)
      (tables e e' at
        (same_table i j p f.row f.new (proposals e d) f.found f.was_pending f.same_id))
  where
    tables :
        (e e' : ProposalEntityType)
        → get_row j (proposals e' d) ≡ some p
        → (get_row j (proposals e d) ≡ some p
            → is_pending p.status ≡ false
            → get_row j (put_row f.new (proposals e d)) ≡ some p)
        → get_row j (
            proposals e' (record (set_proposals e (put_row f.new (proposals e d)) d) {
              hub = d'.hub;
              logs = d'.logs;
            }))
          ≡ some p
    tables university university at same = same at closed
    tables university faculty at same = at
    tables university subject at same = at
    tables faculty university at same = at
    tables faculty faculty at same = same at closed
    tables faculty subject at same = at
    tables subject university at same = at
    tables subject faculty at same = at
    tables subject subject at same = same at closed

module _ {E : Type 0} (names : Names) where
  -- A proposal that has been decided stays as it is, whatever decisions are asked for afterwards, by
  -- anybody and in any order.
  pub serve_decisions_final :
      (cs : List DecisionCall) (d : ProposalDb) (out : E) (e : ProposalEntityType) (j : ℕ)
      (p : Proposal)
      → get_row j (proposals e d) ≡ some p
      → is_pending p.status ≡ false
      → get_row j (proposals e (serve_decisions names cs d out).0) ≡ some p
  unfolding serve_decisions
  serve_decisions_final [] d out e j p at closed = at
  serve_decisions_final (c ∷ cs) d out e j p at closed =
      let a = decision_answer names c d out in
      serve_decisions_final cs a.1 a.2 e j p (kept (Bool-cases (is_ok a.0))) closed
    where
      kept :
          (is_ok (decision_answer names c d out).0 ≡ true)
            ⊎ (is_ok (decision_answer names c d out).0 ≡ false)
          → get_row j (proposals e (decision_answer names c d out).1) ≡ some p
      kept (inl good) =
          stays c.entity_type e c.proposal_id j c.actor d (decision_answer names c d out).1 p
            (decide-Decided names c.now c.proposal_id c.actor d out c.decision c.entity_type good)
            at closed
      kept (inr bad) =
          let same =
            decide_refused names c.now c.proposal_id c.actor d out c.decision c.entity_type bad in
          subst (λ (x : ProposalDb). get_row j (proposals e x) ≡ some p) (sym same.0) at
