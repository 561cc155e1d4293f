-- ===== src/Auth/Outbox/Batch.antt =====
-- The batch of a round of the email worker (app/modules/auth/email_outbox.py), and what the loop over it makes of one message.
use student_knowledge_hub.Prelude.{
  ℕ, zero, suc, ◌+◌, ◌≤◌, ◌<◌, Bool, true, ◌==◌, ==_iff, some, List, [], ◌∷◌, filter, count, take,
  get_row, put_row, get_row-put_row_self, get_row-put_row_ne, All, All-take, ◌≡◌, ◌∙◌, refl, ap,
  subst, arith, some_injective, Bool-cases, inl, inr,
}
use student_knowledge_hub.Admin.Users.Count.{IsUniqueKey, put_row-IsUniqueKey}
use student_knowledge_hub.Catalog.Parents.{All-filter}
use student_knowledge_hub.Catalog.Keys.{count-filter-le}
use student_knowledge_hub.Auth.Model.{EmailOutbox, AuthDb, email_keyed}
use student_knowledge_hub.Auth.Outbox.{
  is_due, insert_due, sort_due, Delivery, send_one, Summary, count_outcome, send_all, due_messages,
  Round,
}
use student_knowledge_hub.Auth.Outbox.Laws.{All-sort_due}

abbrev pub has_id : ℕ → EmailOutbox → Bool
has_id i m = m.id == i

-- How often a round calls `send_email` for a message: as often as its batch has it.
abbrev pub calls_in : ℕ → Round → AuthDb → ℕ
calls_in i r d = count (has_id i) (due_messages r.batch_size r.now d.email_outbox)

count-insert_due :
    (p : EmailOutbox → Bool) (m : EmailOutbox) (xs : List EmailOutbox)
    → count p (insert_due m xs) ≡ count p (m ∷ xs)
unfolding insert_due
count-insert_due p m [] = refl
count-insert_due p m (x ∷ xs) = ground (arith, count-insert_due p m xs)

count-sort_due :
    (p : EmailOutbox → Bool) (xs : List EmailOutbox) → count p (sort_due xs) ≡ count p xs
unfolding sort_due
count-sort_due p [] = refl
count-sort_due p (x ∷ xs) = ground (arith, count-insert_due p x (sort_due xs), count-sort_due p xs)

count-take-le :
    (p : EmailOutbox → Bool) (n : ℕ) (xs : List EmailOutbox) → count p (take n xs) ≤ count p xs
count-take-le p zero xs = omega arith
count-take-le p (suc n) [] = omega arith
count-take-le p (suc n) (x ∷ xs) = ground (arith, count-take-le p n xs)

-- A batch has a message at most once, and as it stands in the table.
pub batch_once :
    (i n now : ℕ) (table : List EmailOutbox)
    → IsUniqueKey table
    → count (has_id i) (due_messages n now table) ≤ 1
batch_once i n now table u = omega (
  arith,
  u i,
  count-take-le (has_id i) n (sort_due (filter (is_due now) table)),
  count-sort_due (has_id i) (filter (is_due now) table),
  count-filter-le (has_id i) (is_due now) table,
)

abbrev Stands : ℕ → EmailOutbox → EmailOutbox → Type 0
Stands i m x = x.id ≡ i → x ≡ m

nowhere :
    (i : ℕ) (m : EmailOutbox) (xs : List EmailOutbox)
    → count (has_id i) xs ≡ 0
    → All (Stands i m) xs
nowhere i m [] h = tt
nowhere i m (x ∷ xs) h = ((λ e. absurd (ground (arith, h, e))), nowhere i m xs (ground (arith, h)))

pub stands :
    (i : ℕ) (m : EmailOutbox) (table : List EmailOutbox)
    → count (has_id i) table ≤ 1
    → get_row i table ≡ some m
    → All (Stands i m) table
stands i m [] u at = tt
stands i m (x ∷ xs) u at = elim (Bool-cases (x.id == i)) [
  | inl e ↦ ((λ _. some_injective (ground (arith, e, at))), nowhere i m xs (ground (arith, e, u)))
  | inr e ↦ (
    (λ same. absurd (ground (arith, e, same))),
    stands i m xs (ground (arith, e, u)) (ground (arith, e, at)),
  )
]

-- What is due: `Stands` and the condition of the query.
abbrev Queued : ℕ → EmailOutbox → ℕ → EmailOutbox → Type 0
Queued i m now x = (x.id ≡ i → x ≡ m) × (is_due now x ≡ true)

pub batch_due :
    (i n now : ℕ) (m : EmailOutbox) (table : List EmailOutbox)
    → All (Stands i m) table
    → All (Queued i m now) (due_messages n now table)
batch_due i n now m table h = All-take (Queued i m now) n (sort_due (filter (is_due now) table)) (
    All-sort_due (Queued i m now) (filter (is_due now) table)
      (All-filter (Stands i m) (Queued i m now) (is_due now) table (λ x due same. (same, due)) h))

-- A message that is in a batch is due.
pub due_if_called :
    (i now : ℕ) (m : EmailOutbox) (ms : List EmailOutbox)
    → All (Queued i m now) ms
    → 1 ≤ count (has_id i) ms
    → is_due now m ≡ true
due_if_called i now m [] h some_call = absurd (omega (arith, some_call))
due_if_called i now m (x ∷ xs) h some_call = elim (Bool-cases (x.id == i)) [
  | inl e ↦ subst (λ (y : EmailOutbox). is_due now y ≡ true) (h.0.0 ((==_iff x.id i).0 e)) h.0.1
  | inr e ↦ due_if_called i now m xs h.1 (ground (arith, e, some_call))
]

send_one_id :
    (base_seconds now : ℕ) (delivery : Delivery) (m : EmailOutbox)
    → (send_one base_seconds now delivery m).id ≡ m.id
unfolding send_one
send_one_id base_seconds now delivery m = ground arith

module _ (base_seconds now : ℕ) (deliver : EmailOutbox → Delivery) where
  pub send_all-IsUniqueKey :
      (ms : List EmailOutbox) (c : Summary) (table : List EmailOutbox)
      → IsUniqueKey table
      → IsUniqueKey (send_all base_seconds now deliver ms c table).1
  unfolding send_all
  send_all-IsUniqueKey [] c table u = u
  send_all-IsUniqueKey (x ∷ xs) c table u =
      let x' = send_one base_seconds now (deliver x) x in
      send_all-IsUniqueKey xs (count_outcome (deliver x) x' c) (put_row x' table)
        (put_row-IsUniqueKey x' table u)

module _ (base_seconds now : ℕ) (deliver : EmailOutbox → Delivery) (i : ℕ) where
  pub not_called :
      (ms : List EmailOutbox) (c : Summary) (table : List EmailOutbox)
      → count (has_id i) ms ≡ 0
      → get_row i (send_all base_seconds now deliver ms c table).1 ≡ get_row i table
  unfolding send_all
  not_called [] c table h = refl
  not_called (x ∷ xs) c table h = elim (Bool-cases (x.id == i)) [
    | inl e ↦ absurd (ground (arith, e, h))
    | inr e ↦
        let x' = send_one base_seconds now (deliver x) x in
        not_called xs (count_outcome (deliver x) x' c) (put_row x' table) (ground (arith, e, h))
        ∙ get_row-put_row_ne i x' table
            (λ same. absurd (ground (arith, e, same, send_one_id base_seconds now (deliver x) x)))
  ]

  pub called_once :
      (m : EmailOutbox) (ms : List EmailOutbox) (c : Summary) (table : List EmailOutbox)
      → All (Queued i m now) ms
      → count (has_id i) ms ≡ 1
      → get_row i table ≡ some m
      → get_row i (send_all base_seconds now deliver ms c table).1
        ≡ some (send_one base_seconds now (deliver m) m)
  unfolding send_all
  called_once m [] c table h once at = absurd (omega (arith, once))
  called_once m (x ∷ xs) c table h once at = elim (Bool-cases (x.id == i)) [
    | inl e ↦
        let same_id = (==_iff x.id i).0 e in
        let x' = send_one base_seconds now (deliver x) x in
        not_called xs (count_outcome (deliver x) x' c) (put_row x' table) (ground (arith, e, once))
        ∙ get_row-put_row_self i m x' table at
            (send_one_id base_seconds now (deliver x) x ∙ same_id)
        ∙ ap (λ (y : EmailOutbox). some (send_one base_seconds now (deliver y) y)) (h.0.0 same_id)
    | inr e ↦
        let x' = send_one base_seconds now (deliver x) x in
        called_once m xs (count_outcome (deliver x) x' c) (put_row x' table) h.1
          (ground (arith, e, once))
          (get_row-put_row_ne i x' table
              (λ same. absurd (ground (arith, e, same, send_one_id base_seconds now (deliver x) x)))
            ∙ at)
  ]

pub send_one_attempts :
    (base_seconds now : ℕ) (delivery : Delivery) (m : EmailOutbox)
    → ((send_one base_seconds now delivery m).attempt_count ≡ m.attempt_count + 1)
      × ((send_one base_seconds now delivery m).max_attempts ≡ m.max_attempts)
unfolding send_one
send_one_attempts base_seconds now delivery m = (ground arith, ground arith)

pub due_below : (now : ℕ) (m : EmailOutbox) → is_due now m ≡ true → m.attempt_count < m.max_attempts
unfolding is_due
due_below now m due = ground (arith, due)
