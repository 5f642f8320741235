-- ===== src/Search.antt =====
-- apps/pipeline/src/search/search.service.ts. The client is a parameter, given by what it answers to a
-- request; `trim` stands for the method of texts. The sort is the same for every request.
pub mod Pages
mod Examples
use optio_test.Prelude.{
  ℕ, ◌+◌, ◌-◌, ◌*◌, min, max, Bool, true, false, ◌||◌, not, Option, none, some, List, [], ◌∷◌, ◌==◌,
  if◌then◌else◌,
}
use optio_test.Prelude.Text.{Text, codes, text_eq, or_text}
use optio_test.Prelude.Int.{ℤ, pos, negsuc}
use optio_test.Elastic.Document.{SearchDocument}

-- A number is `none` where it is missing or no number.
pub record SearchParams : Type 0 where
  pub query : Option Text
  pub tier : Option Text
  pub page : Option ℤ
  pub limit : Option ℤ

pub data Clause : Type 0 where
  multi_match : Text → Clause
  account_tier : Text → Clause
  match_every : Clause

pub data Query : Type 0 where
  match_all : Query
  bool_query : List Clause → List Clause → Query

pub record SearchRequest : Type 0 where
  pub index_name : Text
  pub from : ℕ
  pub size : ℕ
  pub query : Query

-- `hits.total`: a number, an object with a value, or missing.
pub data Total : Type 0 where
  plain : ℕ → Total
  object : Option ℕ → Total
  missing : Total

abbrev pub total_of : Total → ℕ
total_of (plain n) = n
total_of (object none) = 0
total_of (object (some n)) = n
total_of missing = 0

-- `Math.max(1, n || d)`
abbrev at_least_one : ℕ → Option ℤ → ℕ
at_least_one d none = max 1 d
at_least_one d (some (pos n)) = if n == 0 then max 1 d else max 1 n
at_least_one d (some (negsuc n)) = 1

unfoldable pub page_of : SearchParams → ℕ
page_of p = at_least_one 1 p.page

-- `Math.max(1, Math.min(100, params.limit || 25))`
unfoldable pub limit_of : SearchParams → ℕ
limit_of p = min 100 (at_least_one 25 p.limit)

abbrev must_clauses : (Text → Text) → Option Text → List Clause
must_clauses trim none = []
must_clauses trim (some q) = elim (trim q) [ [] ↦ [] | ◌∷◌ c s ↦ multi_match (c ∷ s) ∷ [] ]

abbrev filter_clauses : Option Text → List Clause
filter_clauses none = []
filter_clauses (some []) = []
filter_clauses (some (c ∷ s)) =
    if text_eq (c ∷ s) (codes "ALL") then [] else account_tier (c ∷ s) ∷ []

abbrev or_every : List Clause → List Clause
or_every [] = match_every ∷ []
or_every (c ∷ cs) = c ∷ cs

query_from : List Clause → List Clause → Query
query_from [] [] = match_all
query_from (m ∷ ms) filters = bool_query (or_every (m ∷ ms)) filters
query_from [] (f ∷ fs) = bool_query (or_every []) (f ∷ fs)

unfoldable pub search_request : (Text → Text) → Text → SearchParams → SearchRequest
unfolding query_from page_of limit_of
search_request trim index_name p = record {
  index_name = index_name;
  from = (page_of p - 1) * limit_of p;
  size = limit_of p;
  query = query_from (must_clauses trim p.query) (filter_clauses p.tier);
}

-- What the client does: it throws, or answers with a total and the sources of the hits.
pub data Answer : Type 0 where
  threw : Text → Answer
  answered : Total → List (Option SearchDocument) → Answer

-- The hits that have a source.
pub present : List (Option SearchDocument) → List SearchDocument
present [] = []
present (none ∷ hits) = present hits
present (some d ∷ hits) = d ∷ present hits

pub record SearchResult : Type 0 where
  pub total : ℕ
  pub page : ℕ
  pub limit : ℕ
  pub documents : List SearchDocument
  pub error : Option Text

result_of : SearchParams → Answer → SearchResult
unfolding page_of limit_of present
result_of p (threw e) = record {
  total = 0;
  page = page_of p;
  limit = limit_of p;
  documents = [];
  error = some e;
}
result_of p (answered total hits) = record {
  total = total_of total;
  page = page_of p;
  limit = limit_of p;
  documents = present hits;
  error = none;
}

unfoldable pub search_records :
    (Text → Text) → Text → (SearchRequest → Answer) → SearchParams → SearchResult
unfolding result_of
search_records trim index_name client p = result_of p (client (search_request trim index_name p))
