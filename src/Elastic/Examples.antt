-- ===== src/Elastic/Examples.antt =====
-- The bulk response of a batch of two, with the second record rejected.
use optio_test.Prelude.{◌≡◌, refl, inl, true, none, some, [], ◌∷◌, Member}
use optio_test.Prelude.Text.{codes, text_eq}
use optio_test.Types.{ActionItem}
use optio_test.Batches.{IsPartition, failed_ids}
use optio_test.Samples.{sample, sound_and_poison}
use optio_test.Elastic.{
  BulkResponse, Client, action_item, status_of, parse_bulk_response, bulk_upsert,
}
use optio_test.Elastic.Response.{parse_bulk_response-missing, bulk_upsert-IsPartition}

abbrev created : ActionItem
created = record { status = some 201; error = none }

abbrev bad_request : ActionItem
bad_request = record { status = some 400; error = none }

abbrev mixed : BulkResponse
mixed = record {
  errors = true;
  items = some (
      some ((codes "update", some created) ∷ [])
      ∷ some ((codes "update", some bad_request) ∷ [])
      ∷ []);
}

mixed_splits :
    ((parse_bulk_response sound_and_poison mixed).successful_ids ≡ 5 ∷ [])
    × (failed_ids (parse_bulk_response sound_and_poison mixed).failures ≡ 6 ∷ [])
unfolding parse_bulk_response action_item status_of text_eq
mixed_splits = (refl, refl)

abbrev answering : Client
answering operations = some mixed

bulk_upsert-IsPartition_example :
    IsPartition sound_and_poison (parse_bulk_response sound_and_poison mixed)
unfolding bulk_upsert optio_test.Elastic.any_null
bulk_upsert-IsPartition_example =
    bulk_upsert-IsPartition answering (codes "i") sound_and_poison refl

abbrev cut_short : BulkResponse
cut_short = record {
  errors = true;
  items = some (some ((codes "update", some bad_request) ∷ []) ∷ []);
}

parse_bulk_response-missing_example :
    Member 6 (parse_bulk_response sound_and_poison cut_short).successful_ids
parse_bulk_response-missing_example =
    parse_bulk_response-missing sound_and_poison cut_short
      (some ((codes "update", some bad_request) ∷ []) ∷ []) (sample 6 true) refl refl (inl refl)
