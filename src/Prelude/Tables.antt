-- ===== src/Prelude/Tables.antt =====
-- A table as the list of its rows, in insertion order, each row with a numeric primary key.
use Prim.Native.Nat.{ℕ}
use mathlib.Core.Path.{◌≡◌, refl, subst}
use mathlib.Core.Logic.{◌≢◌, inl, inr}
use mathlib.Core.Bool.{Bool, true, not}
use mathlib.Core.Option.{Option, none, some}
use mathlib.Core.List.{List, [], ◌∷◌}
use native.Mathlib.Omega.{arith}
use student_knowledge_hub.Prelude.Tests.{if◌then◌else◌, ◌==◌, Bool-cases}
use student_knowledge_hub.Prelude.Lists.{filter, All}

-- The primary key of a row.
pub record Keyed {ℓ} (A : Type ℓ) : Type ℓ where
  pub key : A → ℕ

module _ {ℓ} {A : Type ℓ} where
  -- `scalar_one_or_none()` of a `select` with that condition.
  abbrev pub find : (A → Bool) → List A → Option A
  find p [] = none
  find p (x ∷ xs) = if p x then some x else find p xs

  -- `update(...).where(p).values(...)`
  abbrev pub update_where : (A → Bool) → (A → A) → List A → List A
  update_where p f [] = []
  update_where p f (x ∷ xs) = (if p x then f x else x) ∷ update_where p f xs

  -- `delete(...).where(p)`
  abbrev pub delete_where : (A → Bool) → List A → List A
  delete_where p xs = filter (λ x. not (p x)) xs

  -- What is found satisfies the condition.
  pub find_sound : (p : A → Bool) (xs : List A) {a : A} → find p xs ≡ some a → p a ≡ true
  find_sound p [] h = cc
  find_sound p (x ∷ xs) h = elim (Bool-cases (p x)) [
    | inl e ↦ ground (arith, e)
    | inr e ↦ find_sound p xs (rw e at h)
  ]

  pub All-find {κ} :
      (P : A → Type κ) (p : A → Bool) (xs : List A) {a : A} → All P xs → find p xs ≡ some a → P a
  All-find P p [] h e = absurd (elim_none e)
    where
      elim_none : {a : A} → none ≡ some a → ⊥
      elim_none q = cc
  All-find P p (x ∷ xs) {a} h e = elim (Bool-cases (p x)) [
    | inl t ↦ subst P (head_eq t) h.0
    | inr t ↦ All-find P p xs h.1 (rw t at e)
  ]
    where
      head_eq : p x ≡ true → x ≡ a
      head_eq t = ground (arith, t)

  pub All-update_where {κ} :
      (P : A → Type κ) (p : A → Bool) (f : A → A)
      → ((a : A) → P a → p a ≡ true → P (f a))
      → (xs : List A) → All P xs
      → All P (update_where p f xs)
  All-update_where P p f keep [] h = tt
  All-update_where P p f keep (x ∷ xs) h = (
    elim (Bool-cases (p x)) [ inl e ↦ rw e (keep x h.0 e) | inr e ↦ rw e h.0 ],
    All-update_where P p f keep xs h.1,
  )

module _ {ℓ} {A : Type ℓ} ⦃k : Keyed A⦄ where
  -- `session.get(A, id)`
  abbrev pub get_row : ℕ → List A → Option A
  get_row i xs = find (λ x. k.key x == i) xs

  -- The flush of an object that was loaded and changed: its row takes the new values.
  abbrev pub put_row : A → List A → List A
  put_row a xs = update_where (λ x. k.key x == k.key a) (λ _. a) xs

  pub get_row-put_row_self :
      (i : ℕ) (a b : A) (xs : List A)
      → get_row i xs ≡ some a
      → k.key b ≡ i
      → get_row i (put_row b xs) ≡ some b
  get_row-put_row_self i a b [] h e = cc
  get_row-put_row_self i a b (x ∷ xs) h e = ground (arith, get_row-put_row_self i a b xs)

  pub get_row-put_row_ne :
      (i : ℕ) (b : A) (xs : List A) → k.key b ≢ i → get_row i (put_row b xs) ≡ get_row i xs
  get_row-put_row_ne i b [] e = refl
  get_row-put_row_ne i b (x ∷ xs) e = ground (arith, get_row-put_row_ne i b xs e)

  -- The row that is found by a test is replaced by one that still meets it.
  pub find-put_row_self :
      (p : A → Bool) (a b : A) (xs : List A)
      → find p xs ≡ some a
      → k.key b ≡ k.key a
      → p b ≡ true
      → find p (put_row b xs) ≡ some b
  find-put_row_self p a b [] h e pb = cc
  find-put_row_self p a b (x ∷ xs) h e pb = ground (arith, find-put_row_self p a b xs)
