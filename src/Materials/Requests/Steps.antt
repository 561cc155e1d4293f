-- ===== src/Materials/Requests/Steps.antt =====
-- The steps of the state machine, read off the tests that the handlers make.
use student_knowledge_hub.Prelude.{
  ℕ, true, false, some, List, [], ◌∷◌, put_row, ◌≡◌, ◌⊎◌, refl, subst, arith, if◌then◌else◌,
}
use student_knowledge_hub.Materials.Model.{
  MaterialStatus, draft, pending_review, approved, rejected, is_draft, is_pending, is_approved,
  is_rejected, Material, material_keyed,
}
use student_knowledge_hub.Materials.Requests.{
  StatusStep, submit_draft, resubmit, take_back, edit_draft, edit_rejected, edit_approved, accept,
  refuse, submitting, withdrawing, editing, approving, refusing,
}

pub submit_step :
    (s : MaterialStatus)
    → is_draft s ≡ true ⊎ is_rejected s ≡ true
    → StatusStep submitting s pending_review
submit_step draft h = submit_draft
submit_step rejected h = resubmit
submit_step pending_review h = absurd (ground arith)
submit_step approved h = absurd (ground arith)

-- Where an edit leaves a material.
abbrev pub edited : MaterialStatus → MaterialStatus
edited s = if is_approved s then pending_review else s

pub edit_step : (s : MaterialStatus) → is_pending s ≡ false → StatusStep editing s (edited s)
edit_step draft h = edit_draft
edit_step rejected h = edit_rejected
edit_step approved h = edit_approved
edit_step pending_review h = absurd (ground arith)

pub withdraw_step : (s : MaterialStatus) → is_pending s ≡ true → StatusStep withdrawing s draft
withdraw_step pending_review h = take_back
withdraw_step draft h = absurd (ground arith)
withdraw_step rejected h = absurd (ground arith)
withdraw_step approved h = absurd (ground arith)

-- What `mark_material_for_rereview` makes of a material.
abbrev pub rereviewed : ℕ → Material → Material
rereviewed now m =
    if is_approved m.status
    then record m { status = pending_review; submitted_at = some now }
    else m

pub put_row-put_row :
    (a b : Material) (xs : List Material) → b.id ≡ a.id → put_row b (put_row a xs) ≡ put_row b xs
put_row-put_row a b [] h = refl
put_row-put_row a b (x ∷ xs) h = ground (arith, put_row-put_row a b xs h)

pub rereview_step :
    (now : ℕ) (m : Material)
    → is_pending m.status ≡ false
    → StatusStep editing m.status (rereviewed now m).status
rereview_step now m h = subst (StatusStep editing m.status) (ground arith) (edit_step m.status h)

-- The second flush of an edit of an approved material covers the first.
pub twice_stored :
    (now : ℕ) (m b : Material) (xs : List Material)
    → b.id ≡ m.id
    → put_row
        (record b { updated_at = now })
        (put_row
          (record m { status = pending_review; submitted_at = some now; updated_at = now })
          xs)
      ≡ put_row (record b { updated_at = now }) xs
twice_stored now m b xs h =
    put_row-put_row
      (record m { status = pending_review; submitted_at = some now; updated_at = now })
      (record b { updated_at = now }) xs h

pub accept_step : (s : MaterialStatus) → is_pending s ≡ true → StatusStep approving s approved
accept_step pending_review h = accept
accept_step draft h = absurd (ground arith)
accept_step rejected h = absurd (ground arith)
accept_step approved h = absurd (ground arith)

pub refuse_step : (s : MaterialStatus) → is_pending s ≡ true → StatusStep refusing s rejected
refuse_step pending_review h = refuse
refuse_step draft h = absurd (ground arith)
refuse_step rejected h = absurd (ground arith)
refuse_step approved h = absurd (ground arith)

pub kept_step :
    (s : MaterialStatus) → is_pending s ≡ false → is_approved s ≡ false → StatusStep editing s s
kept_step draft h h' = edit_draft
kept_step rejected h h' = edit_rejected
kept_step approved h h' = absurd (ground arith)
kept_step pending_review h h' = absurd (ground arith)
