-- ===== src/Storage/Signature.antt =====
-- app/utils/files.py: what the content of a file must look like, by its extension.
use text.Mathlib.Text.{◌==◌ as str_eq}
use student_knowledge_hub.Prelude.{
  ℕ, String, Bool, true, false, ◌&&◌, ◌||◌, List, [], ◌∷◌, not, ◌==◌, any, take, drop,
  if◌then◌else◌,
}
use student_knowledge_hub.Service.{Result, ok, err, validation_error}
use student_knowledge_hub.Materials.Model.{FileKind, image, document, other}

abbrev pub Bytes : Type 0
Bytes = List ℕ

-- Of the libraries that read a file back: whether it is a zip archive with the members asked for, a JSON object
-- with cells and metadata, and begins in UTF-8.
pub record Readers : Type 0 where
  pub is_zip_with : List String → Bytes → Bool
  pub is_notebook : Bytes → Bool
  pub is_utf8 : Bytes → Bool

abbrev image_extensions : List String
image_extensions = "jpg" ∷ "jpeg" ∷ "png" ∷ "webp" ∷ []

abbrev document_extensions : List String
document_extensions =
    "pdf" ∷ "docx" ∷ "djvu" ∷ "pptx" ∷ "ppt" ∷ "xlsx" ∷ "xls" ∷ "ipynb" ∷ "txt" ∷ "epub" ∷ "doc"
    ∷ []

abbrev audio_video_extensions : List String
audio_video_extensions = "mp3" ∷ "mp4" ∷ []

abbrev among : String → List String → Bool
among extension names = any (λ n. str_eq extension n) names

unfoldable pub is_allowed : String → Bool
is_allowed extension =
    among extension image_extensions
    || among extension document_extensions
    || among extension audio_video_extensions

unfoldable pub detect_file_kind : String → FileKind
detect_file_kind extension =
    if among extension image_extensions
    then image
    else if among extension document_extensions
    then document
    else other

-- `header.startswith(prefix)`
unfoldable pub begins : Bytes → Bytes → Bool
begins [] header = true
begins (b ∷ bs) [] = false
begins (b ∷ bs) (h ∷ hs) = b == h && begins bs hs

-- `needle in text`
unfoldable pub occurs : Bytes → Bytes → Bool
unfolding begins
occurs needle [] = begins needle []
occurs needle (t ∷ ts) = begins needle (t ∷ ts) || occurs needle ts

abbrev jpeg_magic : Bytes
jpeg_magic = 255 ∷ 216 ∷ 255 ∷ []

abbrev png_magic : Bytes
png_magic = 137 ∷ 80 ∷ 78 ∷ 71 ∷ 13 ∷ 10 ∷ 26 ∷ 10 ∷ []

abbrev riff : Bytes
riff = 82 ∷ 73 ∷ 70 ∷ 70 ∷ []

abbrev webp : Bytes
webp = 87 ∷ 69 ∷ 66 ∷ 80 ∷ []

abbrev pub pdf_magic : Bytes
pdf_magic = 37 ∷ 80 ∷ 68 ∷ 70 ∷ 45 ∷ []

abbrev djvu_magic : Bytes
djvu_magic = 65 ∷ 84 ∷ 38 ∷ 84 ∷ 70 ∷ 79 ∷ 82 ∷ 77 ∷ []

abbrev zip_magic : Bytes
zip_magic = 80 ∷ 75 ∷ 3 ∷ 4 ∷ []

abbrev ole_magic : Bytes
ole_magic = 208 ∷ 207 ∷ 17 ∷ 224 ∷ 161 ∷ 177 ∷ 26 ∷ 225 ∷ []

abbrev ftyp : Bytes
ftyp = 102 ∷ 116 ∷ 121 ∷ 112 ∷ []

abbrev is_mp3 : Bytes → Bool
is_mp3 header =
    begins (73 ∷ 68 ∷ 51 ∷ []) header
    || begins (255 ∷ 251 ∷ []) header
    || begins (255 ∷ 243 ∷ []) header
    || begins (255 ∷ 242 ∷ []) header

module _ (readers : Readers) where
  -- The content that the branch of an extension accepts; the members of an archive are read from the whole file.
  unfoldable pub has_signature : String → Bytes → Bytes → Bool
  unfolding begins occurs
  has_signature extension header content =
      if str_eq extension "jpg" || str_eq extension "jpeg"
      then begins jpeg_magic header
      else if str_eq extension "png"
      then begins png_magic header
      else if str_eq extension "webp"
      then begins riff header && begins webp (take 4 (drop 8 header))
      else if str_eq extension "pdf"
      then begins pdf_magic header
      else if str_eq extension "djvu"
      then begins djvu_magic header
      else if str_eq extension "docx"
      then begins zip_magic header
        && readers.is_zip_with ("[Content_Types].xml" ∷ "word/document.xml" ∷ []) content
      else if str_eq extension "pptx"
      then begins zip_magic header
        && readers.is_zip_with ("[Content_Types].xml" ∷ "ppt/presentation.xml" ∷ []) content
      else if str_eq extension "ppt"
      then begins ole_magic header
      else if str_eq extension "xlsx"
      then begins zip_magic header
        && readers.is_zip_with ("[Content_Types].xml" ∷ "xl/workbook.xml" ∷ []) content
      else if str_eq extension "xls"
      then begins ole_magic header
      else if str_eq extension "epub"
      then begins zip_magic header
        && readers.is_zip_with ("mimetype" ∷ "META-INF/container.xml" ∷ []) content
      else if str_eq extension "ipynb"
      then readers.is_notebook content
      else if str_eq extension "txt"
      then readers.is_utf8 content
      else if str_eq extension "mp3"
      then is_mp3 header
      else if str_eq extension "mp4"
      then occurs ftyp (take 8 (drop 4 header))
      else if str_eq extension "doc"
      then begins ole_magic header
      else true

  -- `validate_file_signature`, without the MIME type, which `MIME_BY_EXTENSION` reads off the extension; the
  -- texts of the refusals differ by format.
  unfoldable pub validate_file_signature : String → Bytes → Bytes → Result FileKind
  validate_file_signature extension header content =
      if not (is_allowed extension)
      then err (validation_error "Unsupported file type")
      else if has_signature extension header content
      then ok (detect_file_kind extension)
      else err (validation_error "Uploaded file content does not match its signature")
