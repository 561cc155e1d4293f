-- ===== src/Storage/RoundTrip.antt =====
-- What is read back of the local storage after an upload.
use student_knowledge_hub.Prelude.{
  ℕ, String, some, [], ◌∷◌, get_row, some_injective, inl, inr, ◌≡◌, ◌≢◌, sym, ap, subst, ◌∙◌, arith,
}
use student_knowledge_hub.Service.{Result, ok}
use student_knowledge_hub.Storage.Signature.{Bytes, Readers}
use student_knowledge_hub.Storage.Local.{
  Root, stored_keyed, StoredFile, signature_buffer_size, write, or_not_found, save, read_bytes,
}
use student_knowledge_hub.Storage.Upload.{KeptOrGone, expected_at-KeptOrGone, save_whole}

module _ (k : ℕ) where
  get_row-write :
      (content : Bytes) (root : Root)
      → get_row k (write k content root) ≡ some (record { storage_key = k; content = content })
  get_row-write content [] = ground arith
  get_row-write content (f ∷ fs) = ground (arith, get_row-write content fs)

  get_row-write_ne :
      (j : ℕ) (content : Bytes) (root : Root)
      → j ≢ k
      → get_row j (write k content root) ≡ get_row j root
  get_row-write_ne j content [] e = ground arith
  get_row-write_ne j content (f ∷ fs) e = ground (arith, get_row-write_ne j content fs e)

module _ (readers : Readers) (max_file_size storage_key : ℕ) (extension : String) (content : Bytes)
    (root : Root) where
  outcome :
      (a : Result StoredFile × Root)
      → save readers max_file_size storage_key extension content root ≡ some a
      → KeptOrGone storage_key content root a
  outcome a h =
      subst (KeptOrGone storage_key content root)
        (some_injective
          (sym (save_whole readers max_file_size storage_key extension content root) ∙ h))
        (expected_at-KeptOrGone signature_buffer_size readers max_file_size storage_key extension
          content root)

  -- An upload that is accepted is read back byte for byte under its key, and what is stored under any other key
  -- is read as before.
  pub read_bytes-save :
      (stored : StoredFile) (root' : Root) (other : ℕ)
      → save readers max_file_size storage_key extension content root ≡ some (ok stored, root')
      → other ≢ storage_key
      → (read_bytes storage_key root' ≡ ok content)
        × (read_bytes other root' ≡ read_bytes other root)
  unfolding read_bytes
  read_bytes-save stored root' other h apart = elim (outcome (ok stored, root') h) [
    | inr (refused, gone) ↦ absurd (cc refused)
    | inl (kept, e) ↦ (
      subst (λ (r : Root). read_bytes storage_key r ≡ ok content) (sym e)
          (ap or_not_found (get_row-write storage_key content root)),
      ap (λ r. read_bytes other r) e
          ∙ ap or_not_found (get_row-write_ne storage_key other content root apart),
    )
  ]
