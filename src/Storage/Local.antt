-- ===== src/Storage/Local.antt =====
-- `LocalStorageProvider` (app/infrastructure/storage/service.py): a file is read in chunks, checked and
-- written. A storage key stands as a number.
use student_knowledge_hub.Prelude.{
  ℕ, zero, suc, ◌+◌, ◌-◌, ◌*◌, String, Bool, Option, none, some, List, [], ◌∷◌, ◌++◌, ◌==◌, ltb,
  length, take, drop, delete_where, Keyed, get_row, is_some, if◌then◌else◌,
}
use student_knowledge_hub.Service.{validation_error, resource_not_found, Result, ok, err}
use student_knowledge_hub.Materials.Model.{FileKind}
use student_knowledge_hub.Storage.Signature.{Bytes, Readers, validate_file_signature}

abbrev pub read_chunk_size : ℕ
read_chunk_size = 1024 * 1024

abbrev pub signature_buffer_size : ℕ
signature_buffer_size = 4096

pub record StoredBytes : Type 0 where
  pub storage_key : ℕ
  pub content : Bytes

instance abbrev pub stored_keyed : Keyed StoredBytes
stored_keyed = record { key = λ f. f.storage_key }

-- The directory `root`.
abbrev pub Root : Type 0
Root = List StoredBytes

-- `checksum_hash` stands as the bytes that were hashed.
pub record StoredFile : Type 0 where
  pub storage_key : ℕ
  pub file_size : ℕ
  pub hashed : Bytes
  pub file_kind : FileKind
  pub file_ext : String

-- The local variables of the loop, and what is in the destination.
pub record Progress : Type 0 where
  pub total_size : ℕ
  pub header : Bytes
  pub hashed : Bytes
  pub written : Bytes

-- The header that is kept of a chunk.
abbrev pub extend_header : ℕ → Bytes → Bytes → Bytes
extend_header buffer chunk header =
    if ltb (length header) buffer then header ++ take (buffer - length header) chunk else header

abbrev pub received : ℕ → Bytes → Progress → Progress
received buffer chunk p = record {
  total_size = p.total_size + length chunk;
  header = extend_header buffer chunk p.header;
  hashed = p.hashed ++ chunk;
  written = p.written ++ chunk;
}

module _ (buffer chunk_size max_file_size : ℕ) where
  -- `while chunk := await file.read(READ_CHUNK_SIZE)`, on fuel: `none` is no fuel left.
  unfoldable pub copy : ℕ → Bytes → Progress → Option (Result Progress)
  copy zero unread p = none
  copy (suc fuel) unread p =
      let chunk = take chunk_size unread in
      let rest = copy fuel (drop chunk_size unread) (received buffer chunk p) in
      if length chunk == 0
      then some (ok p)
      else if ltb max_file_size (p.total_size + length chunk)
      then some (err (validation_error "File too large"))
      else rest

abbrev pub unlink_file : ℕ → Root → Root
unlink_file storage_key root = delete_where (λ f. f.storage_key == storage_key) root

abbrev pub write : ℕ → Bytes → Root → Root
write storage_key content root =
    unlink_file storage_key root ++ record { storage_key = storage_key; content = content } ∷ []

-- The file is kept where its signature is found.
abbrev pub validated : ℕ → String → Progress → Root → Result FileKind → Result StoredFile × Root
validated storage_key extension p root (err e) = (err e, unlink_file storage_key root)
validated storage_key extension p root (ok file_kind) = (
  ok (record {
    storage_key = storage_key;
    file_size = p.total_size;
    hashed = p.hashed;
    file_kind = file_kind;
    file_ext = extension;
  }),
  write storage_key p.written root,
)

module _ (readers : Readers) where
  -- What follows the loop: the destination goes unless the file is neither too large nor empty, and has the
  -- signature of its extension.
  abbrev pub conclude : ℕ → String → Result Progress → Root → Result StoredFile × Root
  conclude storage_key extension (err e) root = (err e, unlink_file storage_key root)
  conclude storage_key extension (ok p) root =
      if p.total_size == 0
      then (err (validation_error "Empty file is not allowed"), unlink_file storage_key root)
      else validated storage_key extension p root
          (validate_file_signature readers extension p.header p.written)

  abbrev pub finished :
      ℕ → String → Option (Result Progress) → Root → Option (Result StoredFile × Root)
  finished storage_key extension none root = none
  finished storage_key extension (some r) root = some (conclude storage_key extension r root)

  -- `LocalStorageProvider.save` of a file with an extension and a content, under the key that it draws.
  unfoldable pub save : ℕ → ℕ → String → Bytes → Root → Option (Result StoredFile × Root)
  unfolding copy
  save max_file_size storage_key extension content root =
      finished storage_key extension
        (copy signature_buffer_size read_chunk_size max_file_size (suc (length content)) content
          (record { total_size = 0; header = []; hashed = []; written = [] }))
        root

abbrev pub or_not_found : Option StoredBytes → Result Bytes
or_not_found none = err (resource_not_found "File not found in storage")
or_not_found (some f) = ok f.content

unfoldable pub read_bytes : ℕ → Root → Result Bytes
read_bytes storage_key root = or_not_found (get_row storage_key root)

abbrev pub save_bytes : ℕ → Bytes → Root → Root
save_bytes storage_key content root = write storage_key content root

abbrev pub delete : ℕ → Root → Root
delete storage_key root = unlink_file storage_key root

abbrev pub exists : ℕ → Root → Bool
exists storage_key root = is_some (get_row storage_key root)

unfoldable pub delete_many : List ℕ → Root → Root
delete_many [] root = root
delete_many (k ∷ ks) root = delete_many ks (delete k root)
