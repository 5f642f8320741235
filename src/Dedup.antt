-- ===== src/Dedup.antt =====
-- apps/consumer/src/deduplication.ts: the bounded window of seen message ids. The `Map` is the list
-- of its keys in insertion order, the oldest first.
pub mod Laws
pub mod Window
mod Examples
use optio_test.Prelude.{
  ℕ, max, Bool, true, false, ◌||◌, List, [], ◌∷◌, ◌++◌, leb, if◌then◌else◌, length,
}
use optio_test.Prelude.Text.{Text, text_eq}

pub record DeduplicationStore : Type 0 where
  pub cache : List Text
  pub max_capacity : ℕ

-- `Map.has`, `Map.delete` and `Map.set` of a key that is not there.
unfoldable pub contains : Text → List Text → Bool
contains k [] = false
contains k (x ∷ xs) = text_eq k x || contains k xs

unfoldable pub remove : Text → List Text → List Text
remove k [] = []
remove k (x ∷ xs) = if text_eq k x then xs else x ∷ remove k xs

abbrev pub push : Text → List Text → List Text
push k xs = xs ++ (k ∷ [])

unfoldable pub new : ℕ → DeduplicationStore
new capacity = record { cache = []; max_capacity = max 1 capacity }

unfoldable pub is_duplicate : DeduplicationStore → Text → Bool
is_duplicate s id = contains id s.cache

-- The oldest key, if there is one, is deleted.
unfoldable pub evict : List Text → List Text
evict [] = []
evict (oldest ∷ xs) = remove oldest (oldest ∷ xs)

-- The source's method `record`.
unfoldable pub record_id : DeduplicationStore → Text → DeduplicationStore
record_id s id =
    if contains id s.cache
    then record s { cache = push id (remove id s.cache) }
    else if leb s.max_capacity (length s.cache)
    then record s { cache = push id (evict s.cache) }
    else record s { cache = push id s.cache }

unfoldable pub clear : DeduplicationStore → DeduplicationStore
clear s = record s { cache = [] }

unfoldable pub size : DeduplicationStore → ℕ
size s = length s.cache
