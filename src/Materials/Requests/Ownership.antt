-- ===== src/Materials/Requests/Ownership.antt =====
-- The check of the owner that guards an author's requests.
use student_knowledge_hub.Prelude.{ℕ, none, some, inl, inr, ◌≡◌, ◌⊎◌, refl, ap, arith}
use student_knowledge_hub.Service.{Session, Result, ok, err, AppError}
use student_knowledge_hub.Materials.Model.{Material, Db, Outside}
use student_knowledge_hub.Materials.Common.{find_material, get_owned_material}

module _ (material_id user_id : ℕ) (s : Session Db Outside) where
  get_owned_material-keeps : (get_owned_material material_id user_id s).1 ≡ s
  unfolding get_owned_material
  get_owned_material-keeps = ground arith

  get_owned_material_sound :
      (m : Material) (s' : Session Db Outside)
      → get_owned_material material_id user_id s ≡ (ok m, s')
      → (get_owned_material material_id user_id s ≡ (ok m, s))
        × (find_material material_id s.work ≡ some m)
        × (m.deleted_at ≡ none)
        × (m.uploaded_by ≡ user_id)
  unfolding get_owned_material
  get_owned_material_sound m s' h = ground arith

  -- The check hands over a material of the user that is not deleted, or raises; the session is left
  -- alone.
  pub get_owned_material-cases :
      ((m : Material) × (get_owned_material material_id user_id s ≡ (ok m, s))
        × (find_material material_id s.work ≡ some m)
        × (m.deleted_at ≡ none)
        × (m.uploaded_by ≡ user_id))
      ⊎ ((e : AppError) × (get_owned_material material_id user_id s ≡ (err e, s)))
  get_owned_material-cases = go _ refl
    where
      go :
          (r : Result Material × Session Db Outside)
          → get_owned_material material_id user_id s ≡ r
          → ((m : Material) × (get_owned_material material_id user_id s ≡ (ok m, s))
              × (find_material material_id s.work ≡ some m)
              × (m.deleted_at ≡ none)
              × (m.uploaded_by ≡ user_id))
            ⊎ ((e : AppError) × (get_owned_material material_id user_id s ≡ (err e, s)))
      go (ok m, s') h = let f = get_owned_material_sound m s' h in inl (m, f.0, f.1, f.2, f.3)
      go (err e, s') h = inr (
        e,
        cc (get_owned_material-keeps, ap (λ (p : Result Material × Session Db Outside). p.1) h),
      )
