-- ===== src/Proposals/Model.antt =====
-- The tables of app/modules/catalog_proposals/models.py and enums.py. The three classes of proposals
-- have their columns in common, so one record stands for a row of any of them.
use student_knowledge_hub.Prelude.{
  ℕ, String, Bool, true, false, Option, List, [], ◌∷◌, ◌++◌, Keyed, get_row,
}
use student_knowledge_hub.Service.{Handler, resource_not_found, gets, or_raise, modify, ◌>>=◌}
use student_knowledge_hub.Hub.Tables.{Hub}
use student_knowledge_hub.Admin.Model.{ReportStatus}

pub data ProposalEntityType : Type 0 where
  university faculty subject : ProposalEntityType

-- The `proposal_type` of the decisions and of the listing, and `entity_type.value`.
abbrev pub type_name : ProposalEntityType → String
type_name university = "university"
type_name faculty = "faculty"
type_name subject = "subject"

abbrev pub entity_value : ProposalEntityType → String
entity_value university = "university_proposal"
entity_value faculty = "faculty_proposal"
entity_value subject = "subject_proposal"

pub data ProposalStatus : Type 0 where
  pending approved rejected : ProposalStatus

abbrev pub is_pending : ProposalStatus → Bool
is_pending pending = true
is_pending _ = false

-- `parent_id` is the `university_id` of a faculty proposal and the `faculty_id` of a subject proposal,
-- `approved_id` the id of the university, faculty or subject that came of it.
pub record Proposal : Type 0 where
  pub id : ℕ
  pub parent_id : ℕ
  pub proposed_name : String
  pub proposed_slug : Option String
  pub proposed_code : Option String
  pub proposed_description : Option String
  pub created_by : ℕ
  pub status : ProposalStatus
  pub reviewed_by : Option ℕ
  pub review_note : Option String
  pub approved_id : Option ℕ
  pub reviewed_at : Option ℕ

pub record CatalogProposalLog : Type 0 where
  pub entity_type : ProposalEntityType
  pub entity_id : ℕ
  pub action : String
  pub actor_id : ℕ
  pub note : Option String

pub record CatalogReport : Type 0 where
  pub id : ℕ
  pub entity_type : String
  pub entity_id : ℕ
  pub entity_name : String
  pub reporter_id : ℕ
  pub reviewer_id : Option ℕ
  pub reason : String
  pub details : Option String
  pub status : ReportStatus
  pub resolution_note : Option String
  pub reviewed_at : Option ℕ

pub record ProposalDb : Type 0 where
  pub hub : Hub
  pub university_proposals : List Proposal
  pub faculty_proposals : List Proposal
  pub subject_proposals : List Proposal
  pub logs : List CatalogProposalLog
  pub catalog_reports : List CatalogReport

instance abbrev pub proposal_keyed : Keyed Proposal
proposal_keyed = record { key = λ p. p.id }

instance abbrev pub catalog_report_keyed : Keyed CatalogReport
catalog_report_keyed = record { key = λ r. r.id }

-- The table of a class of proposals.
abbrev pub proposals : ProposalEntityType → ProposalDb → List Proposal
proposals university d = d.university_proposals
proposals faculty d = d.faculty_proposals
proposals subject d = d.subject_proposals

abbrev pub set_proposals : ProposalEntityType → List Proposal → ProposalDb → ProposalDb
set_proposals university ps d = record d { university_proposals = ps }
set_proposals faculty ps d = record d { faculty_proposals = ps }
set_proposals subject ps d = record d { subject_proposals = ps }

abbrev pub Action : Type 0 → Type 0 → Type 0
Action E A = Handler ProposalDb E A

module _ {E : Type 0} where
  abbrev pub on_hub : (Hub → Hub) → Action E (Unit {0})
  on_hub f = modify (λ d. record d { hub = f d.hub })

  -- `_log`
  unfoldable pub log_proposal :
      ProposalEntityType → ℕ → String → ℕ → Option String → Action E (Unit {0})
  log_proposal entity_type entity_id action actor_id note = modify (λ d. record d {
    logs =
        d.logs
        ++ record {
          entity_type = entity_type;
          entity_id = entity_id;
          action = action;
          actor_id = actor_id;
          note = note;
        }
          ∷ [];
  })

  -- `_get_proposal`
  unfoldable pub get_proposal : ProposalEntityType → ℕ → Action E Proposal
  get_proposal e proposal_id = do
    found ← gets (λ d. get_row proposal_id (proposals e d))
    or_raise found (resource_not_found "Proposal not found")
