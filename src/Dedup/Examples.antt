-- ===== src/Dedup/Examples.antt =====
-- The window on concrete ids.
use optio_test.Prelude.{◌≡◌, refl, true, false, [], ◌∷◌, arith}
use optio_test.Prelude.Text.{codes, text_eq}
use optio_test.Dedup.{DeduplicationStore, new, contains, remove, evict, record_id, is_duplicate}
use optio_test.Dedup.Laws.{new-Inv, record_id-Inv}
use optio_test.Dedup.Window.{record_all, record_id-remembered}

abbrev small : DeduplicationStore
small = new 2

-- With room for two ids, the third pushes the first out.
third_evicts :
    is_duplicate (record_all small (codes "a" ∷ codes "b" ∷ codes "c" ∷ [])) (codes "a") ≡ false
unfolding is_duplicate record_all record_id contains remove evict new text_eq
third_evicts = refl

record_id-Inv_example : is_duplicate (record_id small (codes "a")) (codes "a") ≡ true
record_id-Inv_example = (record_id-Inv small (codes "a") (new-Inv 2)).1

record_id-remembered_example :
    is_duplicate (record_all (record_id small (codes "a")) (codes "b" ∷ [])) (codes "a") ≡ true
unfolding new
record_id-remembered_example =
    record_id-remembered small (codes "a") (codes "b" ∷ []) (new-Inv 2) (omega arith)
