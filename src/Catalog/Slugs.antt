-- ===== src/Catalog/Slugs.antt =====
-- The form of a slug (app/utils/slug.py).
use student_knowledge_hub.Prelude.{
  ℕ, Bool, true, false, ◌&&◌, ◌||◌, List, [], ◌∷◌, map, not, ◌==◌, if◌then◌else◌, Bool-cases, inl,
  inr, ◌≡◌, ◌⊎◌, refl, arith,
}
use student_knowledge_hub.Catalog.Names.{
  dash, between, is_alphanumeric, lower, dashed, strip_left, strip_right, put_before, or_item,
  slugify_ascii,
}

-- `[a-z0-9]`
abbrev pub is_slug_code : ℕ → Bool
is_slug_code c = between 97 122 c || between 48 57 c

-- Words of codes with one dash between any two of them, where the flag says that a word must begin here.
unfoldable pub words : (ℕ → Bool) → Bool → List ℕ → Bool
words p begins [] = not begins
words p begins (c ∷ cs) =
    let next = words p true cs in
    let more = words p false cs in if c == dash then not begins && next else p c && more

-- `[a-z0-9]+(-[a-z0-9]+)*`
abbrev pub is_slug : List ℕ → Bool
is_slug cs = words is_slug_code true cs

-- The same, where dashes may stand at the end.
unfoldable tidy : Bool → List ℕ → Bool
tidy begins [] = true
tidy begins (c ∷ cs) =
    let next = tidy true cs in
    let more = tidy false cs in if c == dash then not begins && next else is_alphanumeric c && more

dashed-tidy : (b : Bool) (cs : List ℕ) → tidy b (dashed b cs) ≡ true
unfolding dashed tidy
dashed-tidy b [] = refl
dashed-tidy true (c ∷ cs) = ground (arith, dashed-tidy true cs, dashed-tidy false cs)
dashed-tidy false (c ∷ cs) = ground (arith, dashed-tidy true cs, dashed-tidy false cs)

strip_left-tidy : (b : Bool) (cs : List ℕ) → tidy b cs ≡ true → tidy true (strip_left cs) ≡ true
unfolding tidy strip_left
strip_left-tidy b [] h = refl
strip_left-tidy b (c ∷ cs) h = elim (Bool-cases (c == dash)) [
  | inl e ↦ ground (arith, e, h, strip_left-tidy true cs)
  | inr e ↦ ground (arith, e, h)
]

strip_right-words :
    (b : Bool) (cs : List ℕ)
    → tidy b cs ≡ true
    → (strip_right cs ≡ []) ⊎ (words is_alphanumeric b (strip_right cs) ≡ true)
unfolding tidy strip_right words
strip_right-words b [] h = inl refl
strip_right-words b (c ∷ cs) h = elim (Bool-cases (c == dash)) [
  | inl e ↦
      joined (strip_right cs) (strip_right-words true cs (ground (arith, e, h))) e
        (ground (arith, e, h))
  | inr e ↦
      ended (strip_right cs) (strip_right-words false cs (ground (arith, e, h))) e
        (ground (arith, e, h))
]
  where
    joined :
        (r : List ℕ)
        → (r ≡ []) ⊎ (words is_alphanumeric true r ≡ true)
        → (c == dash) ≡ true
        → b ≡ false
        → (put_before c r ≡ []) ⊎ (words is_alphanumeric b (put_before c r) ≡ true)
    joined [] rest e first = inl (ground (arith, e))
    joined (d ∷ ds) (inl empty) e first = absurd (cc empty)
    joined (d ∷ ds) (inr rest) e first = inr (ground (arith, e, first, rest))

    ended :
        (r : List ℕ)
        → (r ≡ []) ⊎ (words is_alphanumeric false r ≡ true)
        → (c == dash) ≡ false
        → is_alphanumeric c ≡ true
        → (put_before c r ≡ []) ⊎ (words is_alphanumeric b (put_before c r) ≡ true)
    ended [] rest e good = inr (ground (arith, e, good))
    ended (d ∷ ds) (inl empty) e good = absurd (cc empty)
    ended (d ∷ ds) (inr rest) e good = inr (ground (arith, e, good, rest))

lower-words :
    (b : Bool) (cs : List ℕ)
    → words is_alphanumeric b cs ≡ true
    → words is_slug_code b (map lower cs) ≡ true
unfolding words
lower-words b [] h = h
lower-words b (c ∷ cs) h = elim (Bool-cases (c == dash)) [
  | inl e ↦ ground (arith, e, h, lower-words true cs)
  | inr e ↦ ground (arith, e, h, lower-words false cs)
]

-- A slug, of any name, is words of small letters and digits with one dash between any two of them; there is at
-- least one word.
pub slugify_ascii-IsSlug : (cs : List ℕ) → is_slug (slugify_ascii cs) ≡ true
unfolding slugify_ascii words
slugify_ascii-IsSlug cs = go (strip_right stripped) (
    strip_right-words true stripped
      (strip_left-tidy false (dashed false cs) (dashed-tidy false cs)))
  where
    stripped : List ℕ
    stripped = strip_left (dashed false cs)

    go :
        (r : List ℕ)
        → (r ≡ []) ⊎ (words is_alphanumeric true r ≡ true)
        → is_slug (or_item (map lower r)) ≡ true
    go [] rest = refl
    go (d ∷ ds) (inl empty) = absurd (cc empty)
    go (d ∷ ds) (inr rest) = lower-words true (d ∷ ds) rest
