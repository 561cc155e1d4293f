-- ===== src/Materials/Requests/Moderator.antt =====
-- The effect of each request of a moderator.
use student_knowledge_hub.Prelude.{
  ℕ, Option, none, some, get_row, Option-cases, inl, inr, ◌≡◌, ◌⊎◌, refl, arith,
}
use student_knowledge_hub.Prelude.{String}
use student_knowledge_hub.Service.{Session, ok, request}
use student_knowledge_hub.Hub.Tables.{User, subject_keyed}
use student_knowledge_hub.Materials.Model.{approved, rejected, Material, Db, Outside}
use student_knowledge_hub.Materials.Moderation.{
  RejectRequest, approve, reject, request_revision, move_subject,
}
use student_knowledge_hub.Materials.Moderation.Rights.{get_scoped_material-cases}
use student_knowledge_hub.Materials.Requests.{
  Request, handle, kind, Effect, move_any, approve_request, reject_request, revision_request,
  move_request,
}
use student_knowledge_hub.Materials.Requests.Steps.{accept_step, refuse_step}

abbrev opened : Db → Outside → Session Db Outside
opened d out = record { work = d; saved = d; outside = out }

module _ (now i : ℕ) (user : User) (d : Db) (out : Outside) (d' : Db) (out' : Outside) where
  abbrev Granted : Request → Type 0
  Granted r = request (handle now r i user) d out ≡ (ok tt, d', out')

  abbrev Outcome : Request → Type 0
  Outcome r = (d'.materials ≡ d.materials) ⊎ Effect (kind r) i user d d'

  pub approve-Effect : Granted approve_request → Outcome approve_request
  unfolding handle approve
  approve-Effect h = elim (get_scoped_material-cases i user (opened d out)) [
    | inr (e, q) ↦ absurd (ground arith)
    | inl (m, q, found, alive, rights) ↦ inr (record {
      row = m;
      new = record m {
        status = approved;
        approved_by = some user.id;
        last_reviewed_by = some user.id;
        reviewed_at = some now;
        rejected_reason = none;
        updated_at = now;
      };
      found = found;
      alive = alive;
      entitled = rights;
      same_id = refl;
      same_owner = refl;
      step = accept_step m.status (ground arith);
      stored = ground arith;
    })
  ]

  abbrev refused_row : RejectRequest → Material → Material
  refused_row payload m = record m {
    status = rejected;
    rejected_reason = some payload.reason;
    last_reviewed_by = some user.id;
    reviewed_at = some now;
    updated_at = now;
  }

  pub reject-Effect :
      (payload : RejectRequest)
      → Granted (reject_request payload)
      → Outcome (reject_request payload)
  unfolding handle reject
  reject-Effect payload h = elim (get_scoped_material-cases i user (opened d out)) [
    | inr (e, q) ↦ absurd (ground arith)
    | inl (m, q, found, alive, rights) ↦ inr (record {
      row = m;
      new = refused_row payload m;
      found = found;
      alive = alive;
      entitled = rights;
      same_id = refl;
      same_owner = refl;
      step = refuse_step m.status (ground arith);
      stored = ground arith;
    })
  ]

  pub revision-Effect :
      (payload : RejectRequest)
      → Granted (revision_request payload)
      → Outcome (revision_request payload)
  unfolding handle request_revision
  revision-Effect payload h = elim (get_scoped_material-cases i user (opened d out)) [
    | inr (e, q) ↦ absurd (ground arith)
    | inl (m, q, found, alive, rights) ↦ inr (record {
      row = m;
      new = refused_row payload m;
      found = found;
      alive = alive;
      entitled = rights;
      same_id = refl;
      same_owner = refl;
      step = refuse_step m.status (ground arith);
      stored = ground arith;
    })
  ]

  pub move-Effect :
      (subject_id : ℕ) (note : Option String)
      → Granted (move_request subject_id note)
      → Outcome (move_request subject_id note)
  unfolding handle move_subject
  move-Effect subject_id message h = elim (get_scoped_material-cases i user (opened d out)) [
    | inr (e, q) ↦ absurd (ground arith)
    | inl (m, q, found, alive, rights) ↦ elim (Option-cases (get_row subject_id d.hub.subjects)) [
      | inl missing ↦ absurd (ground arith)
      | inr (subject, there) ↦ inr (record {
        row = m;
        new = record m {
          subject_id = subject_id;
          last_reviewed_by = some user.id;
          reviewed_at = some now;
          updated_at = now;
        };
        found = found;
        alive = alive;
        entitled = rights;
        same_id = refl;
        same_owner = refl;
        step = move_any m.status;
        stored = ground arith;
      })
    ]
  ]
