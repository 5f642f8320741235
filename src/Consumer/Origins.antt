-- ===== src/Consumer/Origins.antt =====
-- Where the ids that the consumer processes come from.
use optio_test.Prelude.{
  ℕ, ◌≡◌, refl, sym, ap, ◌+◌, inl, inr, some, List, [], ◌∷◌, Member, Member-append, Option-cases,
  Bool-cases,
}
use optio_test.Prelude.Text.{Text}
use optio_test.Dedup
use optio_test.Consumer.{
  Parsed, ConsumeMessage, EventConsumerService, validate, dedup_id, reject, accept, receive,
  handle_message,
}
use optio_test.Consumer.Once.{processed, processed_by, delivered_id, deliver}

accept_from :
    (c : EventConsumerService) (own id : Text) (now : ℕ)
    → Member id (processed_by (accept c own now).1)
    → own ≡ id
unfolding accept
accept_from c own id now at = elim (Bool-cases (Dedup.is_duplicate c.deduplication_store own)) [
  | inl e ↦ elim (rw (e, accept) at at) [ ]
  | inr e ↦ elim (rw (e, accept) at at) [ inl h ↦ sym h | inr h ↦ elim h [ ] ]
]

module _ (parse : Text → Parsed) where
  receive_from :
      (c : EventConsumerService) (m : ConsumeMessage) (now : ℕ) (id : Text)
      → Member id (processed_by (receive parse c m now).1)
      → delivered_id parse m ≡ some id
  unfolding receive reject
  receive_from c m now id at = elim (Option-cases (validate parse m.content)) [
    | inl e ↦ elim (rw (e, receive) at at) [ ]
    | inr (event, e) ↦
        rw (e, delivered_id)
          (ap some (
            accept_from (record c { total_received = c.total_received + 1 }) (dedup_id m event) id
              now (rw (e, receive) at at)))
  ]

  -- What was processed came from a delivery.
  pub processed_from :
      (c : EventConsumerService) (ms : List (ConsumeMessage × ℕ)) (id : Text)
      → Member id (processed (deliver parse c ms).1)
      → (m : ConsumeMessage) × (now : ℕ) × Member (m, now) ms × (delivered_id parse m ≡ some id)
  unfolding deliver handle_message
  processed_from c [] id at = elim at [ ]
  processed_from c ((m, now) ∷ ms) id at =
      let one = receive parse c m now in
      elim (Member-append id (processed_by one.1) (processed (deliver parse one.0 ms).1) at) [
        | inl here ↦ (m, now, inl refl, receive_from c m now id here)
        | inr later ↦
            let (q, then, in_rest, d) = processed_from one.0 ms id later in
            (q, then, inr in_rest, d)
      ]
