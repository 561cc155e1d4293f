-- ===== src/Tests/Names.antt =====
-- Names that are compared as they are written, their slugs taken of one letter.
use text.Mathlib.Text.{◌==◌ as str_eq}
use student_knowledge_hub.Prelude.{[], ◌∷◌, refl}
use student_knowledge_hub.Catalog.Names.{Names}
use student_knowledge_hub.Proposals.Laws.PendingNames.{IsTrimmedAlike}

abbrev pub plain : Names
plain = record {
  strip = λ name. name;
  normalize_name = λ name. name;
  sql_lower_trim = λ name. name;
  ilike = λ a b. str_eq a b;
  fold_ascii = λ name. 97 ∷ [];
  of_ascii = λ codes. "a";
}

pub plain-IsTrimmedAlike : IsTrimmedAlike plain
plain-IsTrimmedAlike name = refl
