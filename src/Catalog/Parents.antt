-- ===== src/Catalog/Parents.antt =====
-- Rows that are looked up by their id, in tables that grow, change and lose rows.
use student_knowledge_hub.Prelude.{
  ℕ, Bool, true, false, List, [], ◌∷◌, ◌++◌, not, ◌==◌, ==_iff, any, filter, get_row, put_row,
  Keyed, All, is_some, if◌then◌else◌, Bool-cases, inl, inr, ◌≡◌, refl, sym, subst, arith,
}
use student_knowledge_hub.Hub.Tables.{university_keyed, faculty_keyed, subject_keyed}

module _ {A : Type 0} ⦃k : Keyed A⦄ where
  -- Whether a table has a row with an id.
  abbrev pub has_row : ℕ → List A → Bool
  has_row i xs = is_some (get_row i xs)

  pub has_row-append :
      (i : ℕ) (b : A) (xs : List A) → has_row i xs ≡ true → has_row i (xs ++ b ∷ []) ≡ true
  has_row-append i b [] h = absurd (cc h)
  has_row-append i b (x ∷ xs) h = ground (arith, has_row-append i b xs)

  pub has_row-put_row :
      (i : ℕ) (b : A) (xs : List A) → has_row i xs ≡ true → has_row i (put_row b xs) ≡ true
  has_row-put_row i b [] h = h
  has_row-put_row i b (x ∷ xs) h = ground (arith, has_row-put_row i b xs)

  -- A row stays where it is not one that goes.
  pub has_row-filter :
      (i : ℕ) (gone : ℕ → Bool) (xs : List A)
      → has_row i xs ≡ true
      → gone i ≡ false
      → has_row i (filter (λ x. not (gone (k.key x))) xs) ≡ true
  has_row-filter i gone [] h left = h
  has_row-filter i gone (x ∷ xs) h left = elim (Bool-cases (k.key x == i)) [
    | inl same ↦
        let same_key = (==_iff (k.key x) i).0 same in
        let kept = subst (λ (j : ℕ). gone j ≡ false) (sym same_key) left in
        ground (arith, same, kept)
    | inr other ↦ ground (arith, has_row-filter i gone xs)
  ]

module _ {A : Type 0} where
  pub All-map : (P Q : A → Type 0) (xs : List A) → ((x : A) → P x → Q x) → All P xs → All Q xs
  All-map P Q [] f h = tt
  All-map P Q (x ∷ xs) f h = (f x h.0, All-map P Q xs f h.1)

  pub All-both : (P Q : A → Type 0) (xs : List A) → All P xs → All Q xs → All (λ x. P x × Q x) xs
  All-both P Q [] h g = tt
  All-both P Q (x ∷ xs) h g = ((h.0, g.0), All-both P Q xs h.1 g.1)

  pub All-put_row :
      ⦃k : Keyed A⦄ (P : A → Type 0) (b : A) (xs : List A) → P b → All P xs → All P (put_row b xs)
  All-put_row P b [] pb h = tt
  All-put_row ⦃k⦄ P b (x ∷ xs) pb h = (either (k.key x == k.key b), All-put_row P b xs pb h.1)
    where
      either : (replaced : Bool) → P (if replaced then b else x)
      either true = pb
      either false = h.0

  -- What is known of the rows that pass a test holds of all that a filter leaves.
  pub All-filter :
      (P Q : A → Type 0) (p : A → Bool) (xs : List A)
      → ((x : A) → p x ≡ true → P x → Q x)
      → All P xs
      → All Q (filter p xs)
  All-filter P Q p [] f h = tt
  All-filter P Q p (x ∷ xs) f h = either (p x) refl (All-filter P Q p xs f h.1)
    where
      either :
          (passes : Bool)
          → p x ≡ passes
          → All Q (filter p xs)
          → All Q (if passes then x ∷ filter p xs else filter p xs)
      either true e rest = (f x e h.0, rest)
      either false e rest = rest

  pub none_any : (p : A → Bool) (xs : List A) → any p xs ≡ false → All (λ x. p x ≡ false) xs
  none_any p [] h = tt
  none_any p (x ∷ xs) h = (ground arith, none_any p xs (ground arith))
