-- ===== src/Admin/Users/Count.antt =====
-- How the counts of a table change when one of its rows is replaced.
use student_knowledge_hub.Prelude.{
  ℕ, ◌+◌, ◌≤◌, Bool, some, List, [], ◌∷◌, ◌==◌, count, get_row, put_row, Keyed, if◌then◌else◌, ◌≡◌,
  refl, arith,
}

module _ {A : Type 0} ⦃k : Keyed A⦄ where
  -- The primary key is unique.
  abbrev pub IsUniqueKey : List A → Type 0
  IsUniqueKey xs = (i : ℕ) → count (λ x. k.key x == i) xs ≤ 1

  put_row_absent :
      (b : A) (xs : List A) → count (λ x. k.key x == k.key b) xs ≡ 0 → put_row b xs ≡ xs
  put_row_absent b [] h = refl
  put_row_absent b (x ∷ xs) h = ground (arith, put_row_absent b xs)

  -- One row less that has the property if the old one had it, one more if the new one has.
  pub count-put_row :
      (p : A → Bool) (a b : A) (xs : List A)
      → count (λ x. k.key x == k.key b) xs ≤ 1
      → get_row (k.key b) xs ≡ some a
      → count p (put_row b xs) + (if p a then 1 else 0) ≡ count p xs + (if p b then 1 else 0)
  count-put_row p a b [] u f = cc
  count-put_row p a b (x ∷ xs) u f = ground (arith, count-put_row p a b xs, put_row_absent b xs)

  pub put_row-IsUniqueKey : (b : A) (xs : List A) → IsUniqueKey xs → IsUniqueKey (put_row b xs)
  put_row-IsUniqueKey b xs u i = ground (arith, same xs, u i)
    where
      same : (xs : List A) → count (λ x. k.key x == i) (put_row b xs) ≡ count (λ x. k.key x == i) xs
      same [] = refl
      same (x ∷ xs) = ground (arith, same xs)
