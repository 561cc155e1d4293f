-- ===== src/Tests/Storage.antt =====
-- An upload of a small PDF file.
use student_knowledge_hub.Prelude.{true, false, some, [], ◌∷◌, ◌++◌, arith, ◌≡◌, refl}
use student_knowledge_hub.Service.{ok}
use student_knowledge_hub.Materials.Model.{document}
use student_knowledge_hub.Storage.Signature.{
  Readers, pdf_magic, begins, is_allowed, detect_file_kind, has_signature, validate_file_signature,
}
use student_knowledge_hub.Storage.Local.{Root, StoredFile, copy, save, read_bytes}
use student_knowledge_hub.Storage.Upload.{expected_save, save_whole}
use student_knowledge_hub.Storage.RoundTrip.{read_bytes-save}

abbrev unread : Readers
unread = record {
  is_zip_with = λ members content. false;
  is_notebook = λ content. false;
  is_utf8 = λ content. true;
}

abbrev shelf : Root
shelf = record { storage_key = 1; content = 7 ∷ [] } ∷ []

save_whole_example :
    save unread 100 2 "pdf" pdf_magic shelf
    ≡ some (expected_save unread 100 2 "pdf" pdf_magic shelf)
save_whole_example = save_whole unread 100 2 "pdf" pdf_magic shelf

abbrev stored_pdf : StoredFile
stored_pdf = record {
  storage_key = 2;
  file_size = 5;
  hashed = pdf_magic;
  file_kind = document;
  file_ext = "pdf";
}

abbrev fuller : Root
fuller = shelf ++ record { storage_key = 2; content = pdf_magic } ∷ []

accepted : save unread 100 2 "pdf" pdf_magic shelf ≡ some (ok stored_pdf, fuller)
unfolding save copy validate_file_signature has_signature is_allowed detect_file_kind begins
accepted = refl

read_bytes-save_example :
    (read_bytes 2 fuller ≡ ok pdf_magic) × (read_bytes 1 fuller ≡ read_bytes 1 shelf)
read_bytes-save_example =
    read_bytes-save unread 100 2 "pdf" pdf_magic shelf stored_pdf fuller 1 accepted
      (λ e. omega (arith, e))
