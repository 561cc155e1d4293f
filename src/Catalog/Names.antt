-- ===== src/Catalog/Names.antt =====
-- Names and slugs of the catalogue: app/utils/slug.py, and the tests of the queries on names.
use text.Mathlib.Text.{◌==◌ as str_eq}
use student_knowledge_hub.Prelude.{
  ℕ, ◌+◌, String, Bool, true, false, ◌&&◌, ◌||◌, List, [], ◌∷◌, map, ◌==◌, leb, if◌then◌else◌,
}
use student_knowledge_hub.Service.{AppError, runtime_error, Handler, skip, raise}

-- Of the language and the database: `strip` and `lower` of texts, `lower(trim(...))` and `ILIKE` of
-- SQL, the ASCII codes that `normalize("NFKD")` and `encode("ascii", "ignore")` leave of a text, and
-- the text of such codes.
pub record Names : Type 0 where
  pub strip : String → String
  pub normalize_name : String → String
  pub sql_lower_trim : String → String
  pub ilike : String → String → Bool
  pub fold_ascii : String → List ℕ
  pub of_ascii : List ℕ → String

abbrev pub dash : ℕ
dash = 45

abbrev pub between : ℕ → ℕ → ℕ → Bool
between a b c = leb a c && leb c b

-- `[a-zA-Z0-9]`
abbrev pub is_alphanumeric : ℕ → Bool
is_alphanumeric c = between 97 122 c || between 65 90 c || between 48 57 c

-- `lower` of an ASCII code.
abbrev pub lower : ℕ → ℕ
lower c = if between 65 90 c then c + 32 else c

-- `re.sub(r"[^a-zA-Z0-9]+", "-", ...)`, where the flag says that the code before was replaced.
unfoldable pub dashed : Bool → List ℕ → List ℕ
dashed inside [] = []
dashed inside (c ∷ cs) =
    let kept = c ∷ dashed false cs in
    let gap = dashed true cs in
    if is_alphanumeric c then kept else if inside then gap else dash ∷ gap

-- `strip("-")`, on the left and on the right.
unfoldable pub strip_left : List ℕ → List ℕ
strip_left [] = []
strip_left (c ∷ cs) = let rest = strip_left cs in if c == dash then rest else c ∷ cs

abbrev pub put_before : ℕ → List ℕ → List ℕ
put_before c [] = if c == dash then [] else c ∷ []
put_before c (d ∷ ds) = c ∷ d ∷ ds

unfoldable pub strip_right : List ℕ → List ℕ
strip_right [] = []
strip_right (c ∷ cs) = put_before c (strip_right cs)

abbrev item : List ℕ
item = 105 ∷ 116 ∷ 101 ∷ 109 ∷ []

abbrev pub or_item : List ℕ → List ℕ
or_item [] = item
or_item (c ∷ cs) = c ∷ cs

-- `slugify`, on ASCII codes and on a text.
unfoldable pub slugify_ascii : List ℕ → List ℕ
unfolding dashed strip_left strip_right
slugify_ascii cs = or_item (map lower (strip_right (strip_left (dashed false cs))))

abbrev pub slugify : Names → String → String
slugify n name = n.of_ascii (slugify_ascii (n.fold_ascii name))

-- `func.lower(func.trim(name)) == self._normalize_name(name)`
abbrev pub same_name : Names → String → String → Bool
same_name names name stored = str_eq (names.sql_lower_trim stored) (names.normalize_name name)

module _ {S E : Type 0} where
  -- `if result.scalar_one_or_none(): raise e`, for a query with that many rows: of two rows the call
  -- itself raises.
  abbrev pub none_found : ℕ → AppError → Handler S E (Unit {0})
  none_found rows e s =
      (if rows == 0
          then skip
          else if rows == 1
          then raise e
          else raise (runtime_error "MultipleResultsFound"))
        s
