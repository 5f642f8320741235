-- ===== src/Ui/Client.antt =====
-- apps/ui/src/api/client.ts: what a request comes to, and the text of a query. `parse` stands for
-- `JSON.parse`, `trim` for the method of texts, `encode` for `URLSearchParams`.
use optio_test.Prelude.{ℕ, Bool, Option, none, some, List, [], ◌∷◌, ◌++◌, if◌then◌else◌}
use optio_test.Prelude.Text.{Text, codes}
use optio_test.Prelude.Decimal.{show}
use optio_test.Types.{Json, null, text, json}
use optio_test.Replayer.Entry.{payload_field}

-- What `fetch` comes to, with the text of the body.
pub data Fetched : Type 0 where
  responded : (is_ok : Bool) (status : ℕ) (status_text body : Text) → Fetched
  aborted : Fetched
  failed : Text → Fetched

pub record ApiError : Type 0 where
  pub message : Text
  pub status : ℕ
  pub path : Text
  pub body : Json

pub data Result : Type 0 where
  answered : Json → Result
  threw : ApiError → Result

-- `a ?? b` on two fields.
or_else : Option Json → Option Json → Option Json
or_else none b = b
or_else (some null) b = b
or_else (some a) b = some a

message_or : (Text → Text) → Option Json → Text → Text
message_or trim (some (text s)) fallback = elim (trim s) [ [] ↦ fallback | ◌∷◌ c t ↦ s ]
message_or trim other fallback = fallback

unfoldable pub extract_error_message : (Text → Text) → Json → Text → Text
unfolding or_else message_or
extract_error_message trim body fallback =
    let field = payload_field (json body) in
    message_or trim (or_else (field (codes "message")) (field (codes "error"))) fallback

-- An empty body is null, and one that is no JSON stands as its text.
parsed_body : (Text → Option Json) → Text → Json
parsed_body parse [] = null
parsed_body parse (c ∷ s) = elim (parse (c ∷ s)) [ none ↦ text (c ∷ s) | some j ↦ j ]

unfoldable pub request : (Text → Option Json) → (Text → Text) → ℕ → Text → Fetched → Result
unfolding parsed_body
request parse trim timeout_ms path (responded is_ok status status_text body) =
    let parsed = parsed_body parse body in
    if is_ok
    then answered parsed
    else threw (record {
      message =
          extract_error_message trim parsed
            (codes "HTTP " ++ (show status ++ (codes " " ++ status_text)));
      status = status;
      path = path;
      body = parsed;
    })
request parse trim timeout_ms path aborted = threw (record {
  message = codes "Request timed out after " ++ (show timeout_ms ++ codes "ms");
  status = 0;
  path = path;
  body = null;
})
request parse trim timeout_ms path (failed message) =
    threw (record {
      message = codes "Network error: " ++ message;
      status = 0;
      path = path;
      body = null;
    })

-- The parameters that have a value.
given : List (Text × Option Text) → List (Text × Text)
given [] = []
given ((key, none) ∷ params) = given params
given ((key, some []) ∷ params) = given params
given ((key, some (c ∷ s)) ∷ params) = (key, c ∷ s) ∷ given params

unfoldable pub build_query : (List (Text × Text) → Text) → List (Text × Option Text) → Text
unfolding given
build_query encode params = elim (encode (given params)) [ [] ↦ [] | ◌∷◌ c s ↦ 63 ∷ c ∷ s ]
