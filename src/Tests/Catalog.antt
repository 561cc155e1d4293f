-- ===== src/Tests/Catalog.antt =====
-- Changes of the catalogue of the sample.
use text.Mathlib.Text.{◌==◌ as str_eq}
use student_knowledge_hub.Prelude.{if◌then◌else◌, true, none, some, List, [], ◌∷◌, ◌≡◌, refl, arith}
use student_knowledge_hub.Service.{request}
use student_knowledge_hub.Catalog.Names.{Names, slugify_ascii}
use student_knowledge_hub.Catalog.Slugs.{is_slug, slugify_ascii-IsSlug}
use student_knowledge_hub.Catalog.Tree.{Orders, list_university_tree}
use student_knowledge_hub.Catalog.TreeShape.{filtered_tree, list_university_tree_filtered}
use student_knowledge_hub.Catalog.Requests.{
  CatalogCall, creates_faculty, updates_faculty, deletes_university, handle_catalog, serve_catalog,
}
use student_knowledge_hub.Catalog.Step.{Step}
use student_knowledge_hub.Catalog.Refinement.{handle_catalog-Step}
use student_knowledge_hub.Catalog.Distinct.{AllDistinct, serve_catalog-AllDistinct}
use student_knowledge_hub.Catalog.Linked.{IsLinked, serve_catalog-IsLinked}
use student_knowledge_hub.Tests.Sample.{hub, db, caches}
use student_knowledge_hub.Tests.Names.{plain}

abbrev as_stored : Orders
as_stored = record {
  universities_by_name = λ us. us;
  faculties_by_name = λ fs. fs;
  subjects_by_name = λ ss. ss;
}

list_university_tree_filtered_example :
    list_university_tree as_stored hub ≡ filtered_tree as_stored hub
list_university_tree_filtered_example = list_university_tree_filtered as_stored hub

abbrev new_history : CatalogCall
new_history =
    creates_faculty
      (record { parent_id = 30; name = "History"; slug = none; code = none; description = none })

handle_catalog-Step_example :
    Step plain db new_history (request (handle_catalog plain new_history) db caches).1
handle_catalog-Step_example = handle_catalog-Step plain db caches new_history

db-IsLinked : IsLinked db
db-IsLinked = record {
  faculties_linked = (refl, tt);
  subjects_linked = (refl, tt);
  materials_linked = (refl, tt);
}

-- The university has a material below it, and a faculty does not move to one that is not there.
abbrev changes : List CatalogCall
changes =
    new_history
    ∷ deletes_university 30
    ∷ updates_faculty 20 (record { parent_id = some 31; name = none; slug = none })
    ∷ []

serve_catalog-IsLinked_example : IsLinked (serve_catalog plain changes db caches).0
serve_catalog-IsLinked_example = serve_catalog-IsLinked plain changes db caches db-IsLinked

-- "A  !b-"
slugify_ascii-IsSlug_example : is_slug (slugify_ascii (65 ∷ 32 ∷ 32 ∷ 33 ∷ 98 ∷ 45 ∷ [])) ≡ true
slugify_ascii-IsSlug_example = slugify_ascii-IsSlug (65 ∷ 32 ∷ 32 ∷ 33 ∷ 98 ∷ 45 ∷ [])

-- It is "a-b".
slugify_ascii_run : slugify_ascii (65 ∷ 32 ∷ 32 ∷ 33 ∷ 98 ∷ 45 ∷ []) ≡ 97 ∷ 45 ∷ 98 ∷ []
unfolding slugify_ascii
slugify_ascii_run = refl

-- A tab after a name is white space to the program, and a character to the database.
abbrev tabbed : Names
tabbed = record plain {
  normalize_name = λ name. if str_eq name "History\t" then "History" else name;
}

hub-AllDistinct : AllDistinct tabbed hub
hub-AllDistinct = record {
  universities_distinct = record {
    unique = λ i. ground arith;
    below = (omega arith, tt);
    apart = λ i t. ground arith;
    plain = (refl, tt);
  };
  faculties_distinct = record {
    unique = λ i. ground arith;
    below = (omega arith, tt);
    apart = λ i t. ground arith;
    plain = (refl, tt);
  };
  subjects_distinct = record {
    unique = λ i. ground arith;
    below = (omega arith, tt);
    apart = λ i t. ground arith;
    plain = (refl, tt);
  };
}

-- The second new faculty has the name of the first.
serve_catalog-AllDistinct_example :
    AllDistinct tabbed (serve_catalog tabbed (new_history ∷ new_history ∷ changes) db caches).0.hub
serve_catalog-AllDistinct_example =
    serve_catalog-AllDistinct tabbed (new_history ∷ new_history ∷ changes) db caches
      (refl, (refl, (refl, (tt, (tt, tt))))) hub-AllDistinct
