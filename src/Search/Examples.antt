-- ===== src/Search/Examples.antt =====
-- Three documents, in pages of two.
use optio_test.Prelude.{
  leb, ◌+◌, if◌then◌else◌, ℕ, ◌≡◌, refl, none, some, List, [], ◌∷◌, length, map, take, drop,
}
use optio_test.Prelude.Text.{Text, codes}
use optio_test.Prelude.Decimal.{show}
use optio_test.Prelude.Int.{pos}
use optio_test.Types.{active, nil}
use optio_test.Elastic.Document.{SearchDocument}
use optio_test.Search.{
  SearchParams, SearchRequest, plain, Answer, answered, threw, limit_of, search_records,
}
use optio_test.Search.Pages.{max_result_window, pages}

abbrev doc : ℕ → SearchDocument
doc id = record {
  id = show id;
  source_uuid = codes "u";
  tenant_id = codes "t";
  customer_id = none;
  full_name = codes "A B";
  email = none;
  account_tier = none;
  balance = none;
  status = active;
  version = 1;
  tags = nil;
  country = [];
  source_created_at = 1;
  source_updated_at = id;
  synced_at = 9;
}

abbrev docs : List SearchDocument
docs = doc 3 ∷ doc 2 ∷ doc 1 ∷ []

abbrev client : SearchRequest → Answer
client r =
    if leb (r.from + r.size) max_result_window
    then answered (plain (length docs)) (map some (take r.size (drop r.from docs)))
    else threw (codes "Result window is too large")

abbrev params : SearchParams
params = record {
  query = some (codes "ann");
  tier = some (codes "ALL");
  page = none;
  limit = some (pos 2);
}

two_pages : pages (λ s. s) (codes "i") client params 2 ≡ docs
unfolding pages search_records limit_of optio_test.Search.page_of optio_test.Search.search_request
two_pages = refl
