-- ===== src/Search/Pages.antt =====
-- The pages of a search.
use optio_test.Prelude.{ℕ, zero, suc, ◌+◌, ◌≤◌, ◌<◌, ◌≡◌, some, List, [], ◌++◌, map, take, drop}
use optio_test.Prelude.Text.{Text}
use optio_test.Prelude.Int.{pos}
use optio_test.Elastic.Document.{SearchDocument}
use optio_test.Search.{SearchParams, SearchRequest, Total, Answer, answered, threw, search_records}

-- `index.max_result_window`, which the settings of the index leave at its default.
abbrev pub max_result_window : ℕ
max_result_window = 10000

-- A client over an index that does not change. Up to the window of results it answers a request with
-- the slice that it names of the documents that match, in the order of the sort; a request that
-- reaches beyond the window is rejected.
pub record Serves (client : SearchRequest → Answer) (docs : List SearchDocument) : Type 0 where
  pub within :
      (r : SearchRequest)
      → r.from + r.size ≤ max_result_window
      → (total : Total) × (client r ≡ answered total (map some (take r.size (drop r.from docs))))
  pub beyond :
      (r : SearchRequest) → max_result_window < r.from + r.size → (e : Text) × (client r ≡ threw e)

module _ (trim : Text → Text) (index_name : Text) (client : SearchRequest → Answer) where
  abbrev page : SearchParams → ℕ → List SearchDocument
  page p k = (search_records trim index_name client (record p { page = some (pos k) })).documents

  -- The documents of the first `n` pages, one after the other.
  unfoldable pub pages : SearchParams → ℕ → List SearchDocument
  pages p zero = []
  pages p (suc n) = pages p n ++ page p (suc n)
