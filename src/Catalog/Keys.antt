-- ===== src/Catalog/Keys.antt =====
-- Tables whose ids and names are distinct, as they grow, change and lose rows.
use student_knowledge_hub.Prelude.{
  ℕ, ◌+◌, ◌≤◌, ◌<◌, String, Bool, true, ◌&&◌, some, List, [], ◌∷◌, ◌++◌, not, ◌==◌, All, All-append,
  All-find, find_sound, count, count-append, filter, get_row, put_row, Keyed, if◌then◌else◌, ◌≡◌,
  ◌⊎◌, refl, sym, subst, arith,
}
use student_knowledge_hub.Admin.Users.Count.{IsUniqueKey, count-put_row, put_row-IsUniqueKey}
use student_knowledge_hub.Catalog.Parents.{All-map, All-put_row, All-filter}

module _ {A : Type 0} ⦃k : Keyed A⦄ where
  absent : (n : ℕ) (xs : List A) → All (λ x. k.key x < n) xs → count (λ x. k.key x == n) xs ≡ 0
  absent n [] h = refl
  absent n (x ∷ xs) h = ground (arith, h.0, absent n xs h.1)

  pub count-filter-le : (p q : A → Bool) (xs : List A) → count p (filter q xs) ≤ count p xs
  count-filter-le p q [] = omega arith
  count-filter-le p q (x ∷ xs) = ground (arith, count-filter-le p q xs)

  -- Where no row has an id, to leave out that id leaves out nothing.
  none_left_out :
      (p : A → Bool) (i : ℕ) (xs : List A)
      → count (λ x. k.key x == i) xs ≡ 0
      → count (λ x. not (k.key x == i) && p x) xs ≡ count p xs
  none_left_out p i [] h = refl
  none_left_out p i (x ∷ xs) h = ground (arith, h, none_left_out p i xs)

  -- The row with an id, and the others.
  others :
      (p : A → Bool) (a : A) (i : ℕ) (xs : List A)
      → count (λ x. k.key x == i) xs ≤ 1
      → get_row i xs ≡ some a
      → count p xs ≡ count (λ x. not (k.key x == i) && p x) xs + (if p a then 1 else 0)
  others p a i [] u f = absurd (cc f)
  others p a i (x ∷ xs) u f = ground (arith, u, f, others p a i xs, none_left_out p i xs)

module _ {A : Type 0} ⦃k : Keyed A⦄ (named : ℕ → String → A → Bool) (Plain : A → Type 0) where
  -- No two rows have the same id, none has one that is still to come, no two have the same parent and name, and
  -- every name is plain.
  pub record IsDistinct (next : ℕ) (xs : List A) : Type 0 where
    pub unique : IsUniqueKey xs
    pub below : All (λ x. k.key x < next) xs
    pub apart : (i : ℕ) (t : String) → count (named i t) xs ≤ 1
    pub plain : All Plain xs

  pub later-IsDistinct : (next : ℕ) (xs : List A) → IsDistinct next xs → IsDistinct (next + 1) xs
  later-IsDistinct next xs d = record {
    unique = d.unique;
    below = All-map _ _ xs (λ x h. omega (arith, h)) d.below;
    apart = d.apart;
    plain = d.plain;
  }

  pub added-IsDistinct :
      (next : ℕ) (b : A) (xs : List A)
      → k.key b ≡ next
      → Plain b
      → ((i : ℕ) (t : String) → named i t b ≡ true → count (named i t) xs ≡ 0)
      → IsDistinct next xs
      → IsDistinct (next + 1) (xs ++ b ∷ [])
  added-IsDistinct next b xs new is_plain free d = record {
    unique = λ i. ground (
      arith,
      count-append (λ x. k.key x == i) xs (b ∷ []),
      d.unique i,
      subst (λ (n : ℕ). count (λ (x : A). k.key x == n) xs ≡ 0) (sym new) (absent next xs d.below),
    );
    below =
        All-append _ xs (b ∷ []) (All-map _ _ xs (λ x h. omega (arith, h)) d.below)
          (omega (arith, new), tt);
    apart = λ i t. ground (arith, count-append (named i t) xs (b ∷ []), d.apart i t, free i t);
    plain = All-append Plain xs (b ∷ []) d.plain (is_plain, tt);
  }

  pub changed-IsDistinct :
      (next : ℕ) (a b : A) (xs : List A)
      → get_row (k.key b) xs ≡ some a
      → Plain b
      → ((i : ℕ) (t : String)
          → named i t b ≡ true
          → (named i t a ≡ true) ⊎ (count (λ x. not (k.key x == k.key b) && named i t x) xs ≡ 0))
      → IsDistinct next xs
      → IsDistinct next (put_row b xs)
  changed-IsDistinct next a b xs found is_plain free d = record {
    unique = put_row-IsUniqueKey b xs d.unique;
    below =
        All-put_row _ b xs
          (ground (
            arith,
            All-find _ (λ x. k.key x == k.key b) xs d.below found,
            find_sound (λ x. k.key x == k.key b) xs found,
          ))
          d.below;
    apart = λ i t. ground (
      arith,
      count-put_row (named i t) a b xs (d.unique (k.key b)) found,
      d.apart i t,
      free i t,
      others (named i t) a (k.key b) xs (d.unique (k.key b)) found,
    );
    plain = All-put_row Plain b xs is_plain d.plain;
  }

  pub filter-IsDistinct :
      (next : ℕ) (q : A → Bool) (xs : List A) → IsDistinct next xs → IsDistinct next (filter q xs)
  filter-IsDistinct next q xs d = record {
    unique = λ i. omega (arith, d.unique i, count-filter-le (λ x. k.key x == i) q xs);
    below = All-filter _ _ q xs (λ x e h. h) d.below;
    apart = λ i t. omega (arith, d.apart i t, count-filter-le (named i t) q xs);
    plain = All-filter Plain Plain q xs (λ x e h. h) d.plain;
  }
