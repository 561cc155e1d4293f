-- ===== src/Tests/Materials.antt =====
-- The review of the sample's material.
use student_knowledge_hub.Prelude.{
  contains, ◌≤◌, true, Option, none, some, List, [], ◌∷◌, arith, ◌≡◌, ◌⊎◌, ◌↔◌, inr, refl,
}
use student_knowledge_hub.Service.{Result, ok, request}
use student_knowledge_hub.Hub.Events.{
  enqueue_material_submitted_events, create_event, same_identity,
}
use student_knowledge_hub.Materials.Model.{
  draft, pending_review, approved, is_pending, Material, MaterialFile, Db, Outside, material_keyed,
}
use student_knowledge_hub.Materials.Common.{find_material, get_owned_material}
use student_knowledge_hub.Materials.Lifecycle.{submit}
use student_knowledge_hub.Materials.Moderation.{
  in_scope, get_scoped_material, assert_scope, approve, is_pending_for,
}
use student_knowledge_hub.Materials.Moderation.Rights.{Located, MayModerate, is_pending_for_iff}
use student_knowledge_hub.Materials.Moderation.Decisions.{
  approved_row, approve_sound, approve_complete,
}
use student_knowledge_hub.Materials.Access.{
  by_id, get_material, get_material_for_view, get_material_access_context, register_download,
  chosen_file, prepare_download,
}
use student_knowledge_hub.Materials.Access.Laws.{prepare_download_sound}
use student_knowledge_hub.Materials.Requests.{
  handle, approving, Effect, submit_request, approve_request,
}
use student_knowledge_hub.Materials.Requests.Machine.{handle-Effect}
use student_knowledge_hub.Materials.Requests.Review.{Call, serve, Reviewed, serve_needs_review}
use student_knowledge_hub.Tests.Sample.{
  author, lecture, reviewer, algebra, mathematics, hub, material_in, db_with, db, caches,
}

abbrev calls : List Call
calls =
    record { now = 6; request_of = submit_request; material_id = 40; user = author }
    ∷ record { now = 8; request_of = approve_request; material_id = 40; user = reviewer }
    ∷ []

abbrev published : Material
published = record (material_in approved) {
  submitted_at = some 6;
  approved_by = some 3;
  last_reviewed_by = some 3;
  reviewed_at = some 8;
  updated_at = 8;
}

serve_needs_review_example : Reviewed 40 calls (db_with draft) caches
unfolding serve handle submit approve get_owned_material get_scoped_material assert_scope in_scope
    enqueue_material_submitted_events create_event same_identity
serve_needs_review_example =
    serve_needs_review 40 calls (db_with draft) caches (material_in draft) published refl refl refl
      refl

abbrev granted : Result (Unit {0}) × Db × Outside
granted = request (handle 8 approve_request 40 reviewer) db caches

handle-Effect_example :
    (granted.1.materials ≡ db.materials) ⊎ Effect approving 40 reviewer db granted.1
unfolding handle approve get_scoped_material assert_scope in_scope
handle-Effect_example =
    handle-Effect 8 40 reviewer db caches granted.1 granted.2 approve_request refl

abbrev approved_answer : Result (Option Material) × Db × Outside
approved_answer = request (approve 8 40 reviewer) db caches

abbrev accepted_row : Material
accepted_row = record published { submitted_at = none }

abbrev algebra_located : Located hub (material_in pending_review)
algebra_located = record {
  subject = algebra;
  faculty = mathematics;
  subject_found = refl;
  faculty_found = refl;
}

reviewer-MayModerate : MayModerate hub reviewer (material_in pending_review)
unfolding in_scope
reviewer-MayModerate = inr (algebra_located, refl)

approve-sound_example :
    (m : Material) × (find_material 40 db ≡ some m)
    × (m.deleted_at ≡ none)
    × (is_pending m.status ≡ true)
    × (1 ≤ m.file_count)
    × MayModerate hub reviewer m
    × (find_material 40 approved_answer.1 ≡ some (approved_row 8 40 reviewer db caches m))
unfolding approve get_scoped_material assert_scope in_scope
approve-sound_example =
    approve_sound 8 40 reviewer db caches {r = some accepted_row} {d' = approved_answer.1}
      {out' = approved_answer.2} refl

approve-complete_example :
    (approved_answer.0
      ≡ ok (some (approved_row 8 40 reviewer db caches (material_in pending_review))))
    × (find_material 40 approved_answer.1
        ≡ some (approved_row 8 40 reviewer db caches (material_in pending_review)))
approve-complete_example =
    approve_complete 8 40 reviewer db caches (material_in pending_review) refl refl refl
      (omega arith) reviewer-MayModerate

is_pending_for_iff_example : (is_pending_for hub reviewer (material_in pending_review) ≡ true) ↔ (
    ((material_in pending_review).deleted_at ≡ none)
    × (is_pending pending_review ≡ true)
    × MayModerate hub reviewer (material_in pending_review))
is_pending_for_iff_example =
    is_pending_for_iff hub reviewer (material_in pending_review) algebra_located

-- The student downloads the material, pending as it is, without naming a file.
abbrev downloaded : Result MaterialFile × Db × Outside
downloaded = request (prepare_download 9 (by_id 40) none (some author)) db caches

prepare_download_sound_example :
    (m : Material) × (get_material (by_id 40) db ≡ some m)
    × (m.deleted_at ≡ none)
    × ((get_material_access_context db m (some author)).can_download ≡ true)
    × (lecture.material_id ≡ m.id)
    × (contains 60 caches.stored ≡ true)
    × (downloaded.1 ≡ register_download 9 (some author) m.id db)
unfolding prepare_download get_material_for_view chosen_file
prepare_download_sound_example =
    prepare_download_sound 9 (by_id 40) none (some author) db caches lecture downloaded.1
      downloaded.2 refl
