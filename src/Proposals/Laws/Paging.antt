-- ===== src/Proposals/Laws/Paging.antt =====
-- The pages of the reports on the catalogue.
use student_knowledge_hub.Prelude.{
  ℕ, zero, suc, ◌+◌, ◌-◌, ◌*◌, ◌≤◌, String, Option, List, [], ◌++◌, take, drop, take-add, take_all,
  ◌≡◌, sym, ap, ◌∙◌, arith,
}
use student_knowledge_hub.Admin.Model.{ReportStatus}
use student_knowledge_hub.Proposals.Model.{CatalogReport, ProposalDb}
use student_knowledge_hub.Proposals.Reports.{matching, list_catalog_reports}

module _ (page_size : ℕ) (status : Option ReportStatus) (entity_type : Option String)
    (d : ProposalDb) where
  -- The first pages, one after the other.
  abbrev pub pages : ℕ → List CatalogReport
  pages zero = []
  pages (suc n) = pages n ++ (list_catalog_reports (suc n) page_size status entity_type d).0

  pages-take : (n : ℕ) → pages n ≡ take (n * page_size) (matching status entity_type d)
  unfolding list_catalog_reports
  pages-take zero = sym (ap (λ k. take k (matching status entity_type d)) nothing)
    where
      nothing : 0 * page_size ≡ 0
      nothing = omega arith
  pages-take (suc n) =
      let rows = matching status entity_type d in
      ap (λ xs. xs ++ take page_size (drop ((suc n - 1) * page_size) rows)) (pages-take n)
      ∙ ap (λ k. take (n * page_size) rows ++ take page_size (drop (k * page_size) rows)) before
      ∙ take-add (n * page_size) page_size rows
      ∙ ap (λ k. take k rows) more
    where
      before : suc n - 1 ≡ n
      before = omega arith

      more : n * page_size + page_size ≡ suc n * page_size
      more = omega arith

  -- Pages that have room for as many reports as the listing says there are show, one after the other,
  -- every report that matches, once, latest first.
  pub list_catalog_reports_paged :
      (n : ℕ)
      → (list_catalog_reports 1 page_size status entity_type d).1 ≤ n * page_size
      → pages n ≡ matching status entity_type d
  unfolding list_catalog_reports
  list_catalog_reports_paged n h = pages-take n ∙ take_all _ _ h
