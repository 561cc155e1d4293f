-- ===== src/Materials/Access/Laws.antt =====
-- `MaterialService.prepare_download`.
use student_knowledge_hub.Prelude.{
  ℕ, Bool, true, false, ◌&&◌, ◌||◌, Option, none, some, List, [], ◌∷◌, ◌++◌, ◌==◌, any, contains,
  get_row, is_none, Option-cases, inl, inr, ◌≡◌, ◌⊎◌, refl, arith,
}
use student_knowledge_hub.Service.{Session, AppError, Result, ok, err, request}
use student_knowledge_hub.Hub.Tables.{User}
use student_knowledge_hub.Materials.Model.{
  is_approved, Material, MaterialFile, MaterialDownload, Db, Outside, file_keyed,
}
use student_knowledge_hub.Materials.Access.{
  Lookup, get_material, staff_user, owns, get_material_for_view, get_material_access_context,
  chosen_file, register_download, prepare_download,
}

-- Who sees a material: anybody an approved one, staff and its owner any.
abbrev sees : Option User → Material → Bool
sees user m = is_approved m.status || staff_user user || owns user m

module _ (identifier : Lookup) (user : Option User) (s : Session Db Outside) where
  view_sound :
      (m : Material) (s' : Session Db Outside)
      → get_material_for_view identifier user s ≡ (ok m, s')
      → (get_material_for_view identifier user s ≡ (ok m, s))
        × (get_material identifier s.work ≡ some m)
        × (m.deleted_at ≡ none)
        × (sees user m ≡ true)
  unfolding get_material_for_view
  view_sound m s' h = (ground arith, ground arith, ground arith, ground arith)

  view_cases :
      ((m : Material) × (get_material_for_view identifier user s ≡ (ok m, s))
        × (get_material identifier s.work ≡ some m)
        × (m.deleted_at ≡ none)
        × (sees user m ≡ true))
      ⊎ ((e : AppError) × (s' : Session Db Outside) × (get_material_for_view identifier user s
            ≡ (err e, s')))
  view_cases = go _ refl
    where
      go :
          (r : Result Material × Session Db Outside)
          → get_material_for_view identifier user s ≡ r
          → ((m : Material) × (get_material_for_view identifier user s ≡ (ok m, s))
              × (get_material identifier s.work ≡ some m)
              × (m.deleted_at ≡ none)
              × (sees user m ≡ true))
            ⊎ ((e : AppError) × (s' : Session Db Outside) × (get_material_for_view identifier user s
                  ≡ (err e, s')))
      go (ok m, s') h = let f = view_sound m s' h in inl (m, f.0, f.1, f.2, f.3)
      go (err e, s') h = inr (e, s', h)

context_of_viewer :
    (d : Db) (m : Material) (user : Option User)
    → sees user m ≡ true
    → (is_approved m.status && is_none user) ≡ false
    → (get_material_access_context d m user).can_download ≡ true
unfolding get_material_access_context
context_of_viewer d m none v a = ground arith
context_of_viewer d m (some u) v a = ground arith

module _ (now : ℕ) (identifier : Lookup) (file_id : Option ℕ) (user : Option User) (d : Db)
    (out : Outside) where
  -- A download that succeeds is of a file of a material that is there and not deleted; the access
  -- context of the reader says that it can be downloaded, and the file is stored. The database
  -- is afterwards, durably, the one before with the download registered.
  pub prepare_download_sound :
      (entry : MaterialFile) (d' : Db) (out' : Outside)
      → request (prepare_download now identifier file_id user) d out ≡ (ok entry, d', out')
      → (m : Material) × (get_material identifier d ≡ some m)
        × (m.deleted_at ≡ none)
        × ((get_material_access_context d m user).can_download ≡ true)
        × (entry.material_id ≡ m.id)
        × (contains entry.storage_key out.stored ≡ true)
        × (d' ≡ register_download now user m.id d)
  unfolding prepare_download
  prepare_download_sound entry d' out' h =
      elim (view_cases identifier user (record { work = d; saved = d; outside = out })) [
        | inr (x, s', q) ↦ absurd (ground arith)
        | inl (m, q, found, alive, seen) ↦ elim (Option-cases (chosen_file file_id m d)) [
          | inl nothing ↦ absurd (ground arith)
          | inr (file, chosen) ↦ elim (Option-cases (get_row file d.files)) [
            | inl missing ↦ absurd (ground arith)
            | inr (e, there) ↦ (
              m,
              found,
              alive,
              context_of_viewer d m user seen (ground arith),
              ground arith,
              ground arith,
              ground arith,
            )
          ]
        ]
      ]

any-append_last :
    (p : MaterialDownload → Bool) (x : MaterialDownload) (xs : List MaterialDownload)
    → p x ≡ true
    → any p (xs ++ x ∷ []) ≡ true
any-append_last p x [] h = ground (arith, h)
any-append_last p x (y ∷ ys) h = ground (arith, any-append_last p x ys h)

-- A user is counted once for each material: a second download of it changes nothing.
register_download_idem :
    (now later material_id : ℕ) (user : User) (d : Db)
    → register_download later
        (some user)
        material_id
        (register_download now (some user) material_id d)
      ≡ register_download now (some user) material_id d
unfolding register_download
register_download_idem now later material_id user d =
    let row : MaterialDownload = record { user_id = user.id; material_id = material_id } in
    ground (
      arith,
      any-append_last (λ r. r.user_id == user.id && r.material_id == material_id) row d.downloads,
    )
