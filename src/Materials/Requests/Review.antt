-- ===== src/Materials/Requests/Review.antt =====
-- Runs of requests, granted or refused.
use student_knowledge_hub.Prelude.{
  ℕ, true, false, some, List, [], ◌∷◌, some_injective, Bool-cases, inl, inr, ◌≡◌, ◌⊎◌, ◌∙◌, refl,
  sym, subst, arith,
}
use student_knowledge_hub.Service.{Result, ok, err, request}
use student_knowledge_hub.Hub.Tables.{User}
use student_knowledge_hub.Materials.Model.{
  MaterialStatus, is_approved, is_pending, Material, Db, Outside, material_keyed,
}
use student_knowledge_hub.Materials.Common.{find_material}
use student_knowledge_hub.Materials.Requests.{
  Request, handle, Kind, kind, Effect, Entitled, StatusStep, approving, accept, delete_any,
  move_any, submit_request, approve_request,
}
use student_knowledge_hub.Materials.Requests.Machine.{handle-Effect, Moved, row_step}
use student_knowledge_hub.Materials.Moderation.Rights.{MayModerate}
use student_knowledge_hub.Materials.Requests.Refusals.{handle_refused}

approving_only : (r : Request) → kind r ≡ approving → r ≡ approve_request
approving_only approve_request h = refl
approving_only submit_request h = absurd (cc)
approving_only r h = absurd (cc)

step_to_approved :
    {k : Kind} {s s' : MaterialStatus}
    → StatusStep k s s'
    → is_approved s ≡ false
    → is_approved s' ≡ true
    → (k ≡ approving) × (is_pending s ≡ true)
step_to_approved accept h h' = (refl, refl)
step_to_approved (delete_any s) h h' = absurd (cc)
step_to_approved (move_any s) h h' = absurd (cc)
step_to_approved _ h h' = absurd (cc)

-- One request that arrives at a time, for a material, by a user.
pub record Call : Type 0 where
  pub now : ℕ
  pub request_of : Request
  pub material_id : ℕ
  pub user : User

abbrev pub answer : Call → Db → Outside → Result (Unit {0}) × Db × Outside
answer c d out = request (handle c.now c.request_of c.material_id c.user) d out

-- A request that raises is answered by its error, and the next one is served.
unfoldable pub serve : List Call → Db → Outside → Db × Outside
serve [] d out = (d, out)
serve (c ∷ cs) d out = let (_, d', out') = answer c d out in serve cs d' out'

-- Somewhere in the run the material is pending, and somebody who may moderate it approves it.
abbrev pub Reviewed : ℕ → List Call → Db → Outside → Type 0
Reviewed j [] d out = ⊥
Reviewed j (c ∷ cs) d out =
    ((m : Material) × (find_material j d ≡ some m)
      × (is_pending m.status ≡ true)
      × (c.request_of ≡ approve_request)
      × (c.material_id ≡ j)
      × MayModerate d.hub c.user m)
    ⊎ (let (_, d', out') = answer c d out in Reviewed j cs d' out')

abbrev Here : ℕ → Call → Db → Type 0
Here j c d =
    (m : Material) × (find_material j d ≡ some m)
    × (is_pending m.status ≡ true)
    × (c.request_of ≡ approve_request)
    × (c.material_id ≡ j)
    × MayModerate d.hub c.user m

-- After one answer the material is still not approved, or this call has approved it.
one_call :
    (j : ℕ) (c : Call) (d : Db) (out : Outside) (m : Material)
    → find_material j d ≡ some m
    → is_approved m.status ≡ false
    → ((m' : Material) × (find_material j (answer c d out).1 ≡ some m')
        × (is_approved m'.status ≡ false))
      ⊎ Here j c d
one_call j c d out m at un = go (answer c d out) refl
  where
    moved :
        (d' : Db)
        → Moved (kind c.request_of) c.material_id j c.user d d' m
        → ((m' : Material) × (find_material j d' ≡ some m') × (is_approved m'.status ≡ false))
          ⊎ Here j c d
    moved d' (m', at', step, entitled, same) = elim (Bool-cases (is_approved m'.status)) [
      | inr still ↦ inl (m', at', still)
      | inl now_approved ↦
          let facts = step_to_approved step un now_approved in
          inr (
            m,
            at,
            facts.1,
            approving_only c.request_of facts.0,
            same,
            subst (λ (k : Kind). Entitled k d.hub c.user m) facts.0 entitled,
          )
    ]

    changed :
        (d' : Db)
        → (d'.materials ≡ d.materials) ⊎ Effect (kind c.request_of) c.material_id c.user d d'
        → ((m' : Material) × (find_material j d' ≡ some m') × (is_approved m'.status ≡ false))
          ⊎ Here j c d
    changed d' (inl same) = inl (m, rw same at, un)
    changed d' (inr f) = elim (row_step (kind c.request_of) c.material_id j c.user d d' m f at) [
      | inl same ↦ inl (m, same, un)
      | inr mv ↦ moved d' mv
    ]

    go :
        (a : Result (Unit {0}) × Db × Outside)
        → answer c d out ≡ a
        → ((m' : Material) × (find_material j a.1 ≡ some m') × (is_approved m'.status ≡ false))
          ⊎ Here j c d
    go (ok tt, d', out') h =
        changed d' (handle-Effect c.now c.material_id c.user d out d' out' c.request_of h)
    go (err e, d', out') h =
        inl (
          m,
          rw (handle_refused c.now c.material_id c.user d out d' out' e c.request_of h).0 at,
          un,
        )

-- Nothing is published without review: in a run of requests by anybody, a material that is not
-- approved before and is approved after was pending at some point, and was approved there by an
-- admin or by a moderator within their scope.
pub serve_needs_review :
    (j : ℕ) (cs : List Call) (d : Db) (out : Outside) (m m' : Material)
    → find_material j d ≡ some m
    → is_approved m.status ≡ false
    → find_material j (serve cs d out).0 ≡ some m'
    → is_approved m'.status ≡ true
    → Reviewed j cs d out
unfolding serve
serve_needs_review j [] d out m m' at un at' ap' =
    let same : m ≡ m' = some_injective (sym at ∙ at') in absurd (grind (arith, same))
serve_needs_review j (c ∷ cs) d out m m' at un at' ap' = elim (one_call j c d out m at un) [
  | inr here ↦ inl here
  | inl (m₁, at₁, un₁) ↦
      let (r, d', out') = answer c d out in
      inr (serve_needs_review j cs d' out' m₁ m' at₁ un₁ at' ap')
]
