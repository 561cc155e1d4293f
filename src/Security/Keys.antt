-- ===== src/Security/Keys.antt =====
-- The keys of the security store. The source formats them as texts under one prefix; the five
-- formats differ in their first words, so a key is its format with what is filled in. A digest of
-- `hash_identity` is a number.
use text.Mathlib.Text.{◌==◌ as str_eq}
use text.Mathlib.TextEquality.{eq_iff}
use text.Mathlib.TextPositions.{eq_refl}
use student_knowledge_hub.Prelude.{
  ℕ, String, Bool, true, false, ◌&&◌, Option, none, some, List, [], ◌∷◌, ◌==◌, if◌then◌else◌, ◌≡◌,
  arith,
}

pub data Key : Type 0 where
  rate : (scope : String) → (identity : ℕ) → Key
  login_fail login_lock : (identity : ℕ) → Key
  revoked_access : (jti : ℕ) → Key
  revoked_all_access : (user_id : ℕ) → Key

unfoldable pub key_eq : Key → Key → Bool
key_eq (rate s i) (rate t j) = str_eq s t && i == j
key_eq (login_fail i) (login_fail j) = i == j
key_eq (login_lock i) (login_lock j) = i == j
key_eq (revoked_access i) (revoked_access j) = i == j
key_eq (revoked_all_access i) (revoked_all_access j) = i == j
key_eq _ _ = false

pub key_eq_refl : (k : Key) → key_eq k k ≡ true
unfolding key_eq
key_eq_refl (rate s i) = ground (arith, eq_refl s)
key_eq_refl (login_fail i) = ground arith
key_eq_refl _ = ground arith

pub key_eq_sound : (k j : Key) → key_eq k j ≡ true → k ≡ j
unfolding key_eq
key_eq_sound (rate s i) (rate t j) h = ground (arith, eq_iff s t)
key_eq_sound (login_fail i) (login_fail j) h = ground arith
key_eq_sound (login_lock i) (login_lock j) h = ground arith
key_eq_sound (revoked_access i) (revoked_access j) h = ground arith
key_eq_sound (revoked_all_access i) (revoked_all_access j) h = ground arith
key_eq_sound _ _ h = absurd (cc)

-- A dictionary over the keys: `_memory_store`.
module _ {V : Type 0} where
  unfoldable pub lookup : Key → List (Key × V) → Option V
  lookup k [] = none
  lookup k ((j, v) ∷ m) = if key_eq j k then some v else lookup k m

  unfoldable pub pop : Key → List (Key × V) → List (Key × V)
  pop k [] = []
  pop k ((j, v) ∷ m) = let rest = pop k m in if key_eq j k then rest else (j, v) ∷ rest

  unfoldable pub put : Key → V → List (Key × V) → List (Key × V)
  unfolding pop
  put k v m = (k, v) ∷ pop k m

  pub lookup-pop :
      (k j : Key) (m : List (Key × V))
      → lookup j (pop k m) ≡ (if key_eq k j then none else lookup j m)
  unfolding lookup pop
  lookup-pop k j [] = ground arith
  lookup-pop k j ((i, v) ∷ m) = ground (
    arith,
    lookup-pop k j m,
    key_eq_sound i k,
    key_eq_sound i j,
    key_eq_sound k j,
    key_eq_refl i,
    key_eq_refl k,
    key_eq_refl j,
  )

  pub lookup-put :
      (k j : Key) (v : V) (m : List (Key × V))
      → lookup j (put k v m) ≡ (if key_eq k j then some v else lookup j m)
  unfolding lookup put
  lookup-put k j v m = ground (arith, lookup-pop k j m)
