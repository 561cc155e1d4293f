-- ===== src/Materials/Moderation/Decisions.antt =====
-- `ModerationService.approve`.
use student_knowledge_hub.Prelude.{
  ℕ, ◌≤◌, true, Option, none, some, ◌==◌, get_row, find_sound, ==_iff, ◌∙◌, inl, inr, ◌≡◌, refl,
  arith, put_row, get_row-put_row_self,
}
use student_knowledge_hub.Service.{Session, ok, request}
use student_knowledge_hub.Hub.Tables.{User}
use student_knowledge_hub.Materials.Model.{
  approved, is_pending, Material, Db, Outside, material_keyed,
}
use student_knowledge_hub.Materials.Common.{find_material}
use student_knowledge_hub.Materials.Moderation.{approve}
use student_knowledge_hub.Materials.Moderation.Rights.{
  MayModerate, get_scoped_material-cases, get_scoped_material_complete,
}

-- A fresh session over the database.
abbrev opened : Db → Outside → Session Db Outside
opened d out = record { work = d; saved = d; outside = out }

-- What a flush of a changed material leaves to be found under its id.
pub find-put_row :
    (i : ℕ) (d : Db) {m : Material} (b : Material)
    → find_material i d ≡ some m
    → b.id ≡ m.id
    → get_row i (put_row b d.materials) ≡ some b
find-put_row i d {m} b found same =
    get_row-put_row_self i m b d.materials found
      (same ∙ (==_iff _ _).0 (find_sound (λ x. x.id == i) d.materials found))

module _ (now material_id : ℕ) (actor : User) (d : Db) (out : Outside) where
  -- The row of an approved material.
  abbrev pub approved_row : Material → Material
  approved_row m = record m {
    status = approved;
    approved_by = some actor.id;
    last_reviewed_by = some actor.id;
    reviewed_at = some now;
    rejected_reason = none;
    updated_at = now;
  }

  -- An approval that succeeds has found the material there, not deleted, pending and with a file, by
  -- an admin or by a moderator in whose scope it is; afterwards, durably, the material is approved,
  -- with the actor as its reviewer and no reason of rejection.
  pub approve_sound :
      {r : Option Material} {d' : Db} {out' : Outside}
      → request (approve now material_id actor) d out ≡ (ok r, d', out')
      → (m : Material) × (find_material material_id d ≡ some m)
        × (m.deleted_at ≡ none)
        × (is_pending m.status ≡ true)
        × (1 ≤ m.file_count)
        × MayModerate d.hub actor m
        × (find_material material_id d' ≡ some (approved_row m))
  unfolding approve
  approve_sound {r} {d'} h = elim (get_scoped_material-cases material_id actor (opened d out)) [
    | inr (e, q) ↦ absurd (ground arith)
    | inl (m, q, found, alive, rights) ↦
        let saved : d'.materials ≡ put_row (approved_row m) d.materials = ground arith in
        (
          m,
          found,
          alive,
          ground arith,
          ground arith,
          rights,
          rw saved (find-put_row material_id d (approved_row m) found refl),
        )
  ]

  -- The approval of a material that is there, not deleted, pending and with a file, by an actor who
  -- may moderate it, succeeds: the approved material is returned and, durably, stored.
  pub approve_complete :
      (m : Material)
      → find_material material_id d ≡ some m
      → m.deleted_at ≡ none
      → is_pending m.status ≡ true
      → 1 ≤ m.file_count
      → MayModerate d.hub actor m
      → let (r, d', _) = request (approve now material_id actor) d out in
        (r ≡ ok (some (approved_row m))) × (find_material material_id d' ≡ some (approved_row m))
  unfolding approve
  approve_complete m found alive p n rights =
      let q = get_scoped_material_complete material_id actor (opened d out) m found alive rights in
      let stored = find-put_row material_id d (approved_row m) found refl in
      let same : m.id ≡ material_id =
        (==_iff _ _).0 (find_sound (λ x. x.id == material_id) d.materials found) in
      (ground (arith, q, stored, same), ground (arith, q, stored))
