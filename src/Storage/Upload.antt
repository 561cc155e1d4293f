-- ===== src/Storage/Upload.antt =====
-- The chunks of `LocalStorageProvider.save` against the content as a whole.
use student_knowledge_hub.Prelude.{
  ℕ, zero, suc, ◌+◌, ◌-◌, ◌≤◌, ◌<◌, String, true, false, some, List, [], ◌∷◌, ◌++◌, ◌==◌, ltb,
  length, take, drop, length-append, take_nil, take_all, take-drop, take-append, if◌then◌else◌,
  Bool-cases, inl, inr, ◌≡◌, ◌⊎◌, refl, sym, ap, ◌∙◌, arith,
}
use mathlib.Core.List.{append-nil, append_assoc}
use student_knowledge_hub.Service.{validation_error, Result, ok, err, is_ok}
use student_knowledge_hub.Storage.Signature.{Bytes, Readers, validate_file_signature}
use student_knowledge_hub.Storage.Local.{
  read_chunk_size, signature_buffer_size, Root, StoredFile, Progress, extend_header, received, copy,
  unlink_file, write, conclude, finished, save,
}

-- The progress after a content.
abbrev pub progress : ℕ → Bytes → Progress
progress buffer w = record {
  total_size = length w;
  header = take buffer w;
  hashed = w;
  written = w;
}

abbrev pub too_large_or : ℕ → ℕ → Bytes → Result Progress
too_large_or buffer max_file_size content =
    if ltb max_file_size (length content)
    then err (validation_error "File too large")
    else ok (progress buffer content)

length-take-eq :
    {A : Type 0} (n : ℕ) (xs : List A)
    → length (take n xs) ≡ (if ltb n (length xs) then n else length xs)
length-take-eq zero [] = refl
length-take-eq zero (x ∷ xs) = ground arith
length-take-eq (suc n) [] = ground arith
length-take-eq (suc n) (x ∷ xs) = ground (arith, length-take-eq n xs)

extend_header-take :
    (buffer : ℕ) (chunk w : Bytes)
    → extend_header buffer chunk (take buffer w) ≡ take buffer (w ++ chunk)
extend_header-take buffer chunk w = elim (Bool-cases (ltb (length w) buffer)) [
  | inl short ↦
      let full = take_all buffer w (ground (arith, short)) in
      ap (extend_header buffer chunk) full
      ∙ grown short
      ∙ ap (λ z. z ++ take (buffer - length w) chunk) (sym full)
      ∙ sym (take-append buffer w chunk)
  | inr long ↦
      settled long
      ∙ sym (append-nil (take buffer w))
      ∙ ap (λ k. take buffer w ++ take k chunk) (nothing long)
      ∙ sym (take-append buffer w chunk)
]
  where
    grown :
        ltb (length w) buffer ≡ true
        → extend_header buffer chunk w ≡ w ++ take (buffer - length w) chunk
    grown short = ground (arith, short)

    settled :
        ltb (length w) buffer ≡ false → extend_header buffer chunk (take buffer w) ≡ take buffer w
    settled long = ground (arith, long, length-take-eq buffer w)

    nothing : ltb (length w) buffer ≡ false → 0 ≡ buffer - length w
    nothing long = ground (arith, long)

received-progress :
    (buffer : ℕ) (chunk w : Bytes)
    → received buffer chunk (progress buffer w) ≡ progress buffer (w ++ chunk)
received-progress buffer chunk w = λ i. record {
  total_size = sym (length-append w chunk) i;
  header = extend_header-take buffer chunk w i;
  hashed = w ++ chunk;
  written = w ++ chunk;
}

module _ (buffer chunk_size max_file_size : ℕ) (positive : 0 < chunk_size) where
  -- A chunk that is not empty and not too much is received.
  step :
      (fuel x : ℕ) (xs w : Bytes)
      → ltb max_file_size (length w + length (take chunk_size (x ∷ xs))) ≡ false
      → length (take chunk_size (x ∷ xs))
        ≡ (if ltb chunk_size (length (x ∷ xs)) then chunk_size else length (x ∷ xs))
      → copy buffer chunk_size max_file_size (suc fuel) (x ∷ xs) (progress buffer w)
        ≡ copy buffer chunk_size max_file_size fuel
            (drop chunk_size (x ∷ xs))
            (received buffer (take chunk_size (x ∷ xs)) (progress buffer w))
  unfolding copy
  step fuel x xs w within some_read = ground (arith, within, some_read, positive)

  -- The loop ends before its fuel does, where there is more fuel than bytes left, having read all of them or
  -- found too many.
  copy_all :
      (fuel : ℕ) (unread w : Bytes)
      → length unread < fuel
      → length w ≤ max_file_size
      → copy buffer chunk_size max_file_size fuel unread (progress buffer w)
        ≡ some (too_large_or buffer max_file_size (w ++ unread))
  unfolding copy
  copy_all zero unread w enough fits = absurd (omega (arith, enough))
  copy_all (suc fuel) [] w enough fits = ground (arith, take_nil {A = ℕ} chunk_size, append-nil w)
  copy_all (suc fuel) (x ∷ xs) w enough fits =
      let unread : Bytes = x ∷ xs in
      let chunk = take chunk_size unread in
      let left = drop chunk_size unread in
      let sizes : length chunk + length left ≡ length unread =
        sym (length-append chunk left) ∙ ap length (take-drop chunk_size unread) in
      let some_read = length-take-eq chunk_size unread in
      let sum = length-append w chunk in
      elim (Bool-cases (ltb max_file_size (length w + length chunk))) [
        | inl over ↦ ground (arith, over, positive, sizes, some_read, length-append w unread)
        | inr within ↦
            step fuel x xs w within some_read
            ∙ ap (copy buffer chunk_size max_file_size fuel left) (received-progress buffer chunk w)
            ∙ copy_all fuel left (w ++ chunk) (ground (arith, enough, sizes, some_read, positive))
                (ground (arith, within, sum))
            ∙ ap (λ ys. some (too_large_or buffer max_file_size ys))
                (append_assoc w chunk left ∙ ap (λ ys. w ++ ys) (take-drop chunk_size unread))
      ]

abbrev expected_at : ℕ → Readers → ℕ → ℕ → String → Bytes → Root → Result StoredFile × Root
expected_at buffer readers max_file_size storage_key extension content root =
    if ltb max_file_size (length content)
    then (err (validation_error "File too large"), unlink_file storage_key root)
    else if length content == 0
    then (err (validation_error "Empty file is not allowed"), unlink_file storage_key root)
    else elim (validate_file_signature readers extension (take buffer content) content) [
      | err e ↦ (err e, unlink_file storage_key root)
      | ok file_kind ↦ (
        ok (record {
          storage_key = storage_key;
          file_size = length content;
          hashed = content;
          file_kind = file_kind;
          file_ext = extension;
        }),
        write storage_key content root,
      )
    ]

-- What an upload comes to: a file that is too large, empty or without the signature of its extension is refused
-- and nothing is left under its key; any other is stored whole.
abbrev pub expected_save : Readers → ℕ → ℕ → String → Bytes → Root → Result StoredFile × Root
expected_save = expected_at signature_buffer_size

concluded :
    (buffer : ℕ) (readers : Readers) (max_file_size storage_key : ℕ) (extension : String)
    (content : Bytes) (root : Root)
    → conclude readers storage_key extension (too_large_or buffer max_file_size content) root
      ≡ expected_at buffer readers max_file_size storage_key extension content root
concluded buffer readers max_file_size storage_key extension content root =
    elim (Bool-cases (ltb max_file_size (length content))) [
      | inl over ↦ ground (arith, over)
      | inr within ↦ elim (Bool-cases (length content == 0)) [
        | inl empty ↦ ground (arith, within, empty)
        | inr some_bytes ↦ ground (arith, within, some_bytes)
      ]
    ]

-- An answer that keeps the file whole, or an error that leaves nothing.
abbrev pub KeptOrGone : ℕ → Bytes → Root → Result StoredFile × Root → Type 0
KeptOrGone storage_key content root a =
    ((is_ok a.0 ≡ true) × (a.1 ≡ write storage_key content root))
    ⊎ ((is_ok a.0 ≡ false) × (a.1 ≡ unlink_file storage_key root))

pub expected_at-KeptOrGone :
    (buffer : ℕ) (readers : Readers) (max_file_size storage_key : ℕ) (extension : String)
    (content : Bytes) (root : Root)
    → KeptOrGone storage_key content root
        (expected_at buffer readers max_file_size storage_key extension content root)
expected_at-KeptOrGone buffer readers max_file_size storage_key extension content root =
    ground arith

-- Reading a file in chunks, counting, hashing and writing them one by one, ends and comes to what the whole content
-- does, for every content and every limit.
pub save_whole :
    (readers : Readers) (max_file_size storage_key : ℕ) (extension : String) (content : Bytes)
    (root : Root)
    → save readers max_file_size storage_key extension content root
      ≡ some (expected_save readers max_file_size storage_key extension content root)
unfolding save
save_whole readers max_file_size storage_key extension content root =
    ap (λ r. finished readers storage_key extension r root)
      (copy_all signature_buffer_size read_chunk_size max_file_size (omega arith)
        (suc (length content)) content [] (omega arith) (omega arith))
    ∙ ap some
        (concluded signature_buffer_size readers max_file_size storage_key extension content root)
