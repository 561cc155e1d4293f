-- ===== src/Catalog/Requests.antt =====
-- The calls that app/modules/admin/catalog_api.py makes of
-- `CatalogService` to change the catalogue.
use student_knowledge_hub.Prelude.{ℕ, List, [], ◌∷◌}
use student_knowledge_hub.Service.{Handler, pure, request, ◌>>◌}
use student_knowledge_hub.Materials.Model.{Db}
use student_knowledge_hub.Catalog.Names.{Names}
use student_knowledge_hub.Catalog.Service.{
  create_university, create_faculty, create_subject, update_university, update_faculty,
  update_subject,
}
use student_knowledge_hub.Catalog.Rows.{EntryCreate, EntryUpdate, SubjectUpdate}
use student_knowledge_hub.Catalog.Deletion.{delete_university, delete_faculty, delete_subject}

pub data CatalogCall : Type 0 where
  creates_university creates_faculty creates_subject : EntryCreate → CatalogCall
  updates_university updates_faculty : ℕ → EntryUpdate → CatalogCall
  updates_subject : ℕ → SubjectUpdate → CatalogCall
  deletes_university deletes_faculty deletes_subject : ℕ → CatalogCall

abbrev pub discard : {E A : Type 0} → Handler Db E A → Handler Db E (Unit {0})
discard m = m >> pure tt

module _ {E : Type 0} (names : Names) where
  unfoldable pub handle_catalog : CatalogCall → Handler Db E (Unit {0})
  handle_catalog (creates_university payload) = discard (create_university names payload)
  handle_catalog (creates_faculty payload) = discard (create_faculty names payload)
  handle_catalog (creates_subject payload) = discard (create_subject names payload)
  handle_catalog (updates_university i payload) = discard (update_university names i payload)
  handle_catalog (updates_faculty i payload) = discard (update_faculty names i payload)
  handle_catalog (updates_subject i payload) = discard (update_subject names i payload)
  handle_catalog (deletes_university i) = delete_university i
  handle_catalog (deletes_faculty i) = delete_faculty i
  handle_catalog (deletes_subject i) = delete_subject i

  unfoldable pub serve_catalog : List CatalogCall → Db → E → Db × E
  serve_catalog [] d out = (d, out)
  serve_catalog (c ∷ cs) d out =
      let (_, d', out') = request (handle_catalog c) d out in serve_catalog cs d' out'
