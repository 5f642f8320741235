-- ===== src/Consumer/Once.antt =====
-- Effectively-once processing: a stream of deliveries over an open channel.
use mathlib.Core.Option.{some-injective}
use optio_test.Prelude.{
  ℕ, ◌+◌, ◌≤◌, ◌<◌, ◌≡◌, refl, sym, ap, ◌∙◌, subst, true, inl, inr, Option, none, some, List, [],
  ◌∷◌, ◌++◌, append_assoc, append-nil, arith, length, length-append, Member, Bool-cases,
  Option-cases,
}
use optio_test.Prelude.Text.{Text}
use optio_test.Dedup
use optio_test.Dedup.{DeduplicationStore, contains}
use optio_test.Dedup.Laws.{Distinct, Inv, new-Inv, record_id-Inv, record_id-push, contains-append}
use optio_test.Consumer.{
  Parsed, ConsumeMessage, EventConsumerService, Reply, acked_new, new, validate, dedup_id, accept,
  receive, handle_message,
}

-- The ids that one reply processes.
abbrev pub processed_by : Reply → List Text
processed_by (acked_new id) = id ∷ []
processed_by _ = []

abbrev pub processed : List Reply → List Text
processed [] = []
processed (r ∷ rs) = processed_by r ++ processed rs

accept-cache :
    (c : EventConsumerService) (id : Text) (now : ℕ)
    → Inv c.deduplication_store
    → length c.deduplication_store.cache + length (processed_by (accept c id now).1)
      ≤ c.deduplication_store.max_capacity
    → let s = (accept c id now).0.deduplication_store in
      (s.cache ≡ c.deduplication_store.cache ++ processed_by (accept c id now).1)
      × (s.max_capacity ≡ c.deduplication_store.max_capacity)
      × Inv s
      × (contains id s.cache ≡ true)
unfolding accept Dedup.is_duplicate
accept-cache c id now v h = elim (Bool-cases (Dedup.is_duplicate c.deduplication_store id)) [
  | inl old ↦ rw (old, accept) (sym (append-nil _), refl, v, old)
  | inr new_id ↦
      let s = c.deduplication_store in
      let room : length s.cache < s.max_capacity = ground arith in
      let pushed = record_id-push s id new_id room in
      let kept = record_id-Inv s id v in
      rw (new_id, accept)
        (ap (λ t. t.cache) pushed, ap (λ t. t.max_capacity) pushed, kept.0, kept.1)
]

module _ (parse : Text → Parsed) where
  -- The id of a delivery that passes the validation.
  abbrev pub delivered_id : ConsumeMessage → Option Text
  delivered_id m = elim (validate parse m.content) [ none ↦ none | some e ↦ some (dedup_id m e) ]

  abbrev store : EventConsumerService → DeduplicationStore
  store c = c.deduplication_store

  receive-cache :
      (c : EventConsumerService) (m : ConsumeMessage) (now : ℕ)
      → Inv (store c)
      → length (store c).cache + length (processed_by (receive parse c m now).1)
        ≤ (store c).max_capacity
      → let s = store (receive parse c m now).0 in
        (s.cache ≡ (store c).cache ++ processed_by (receive parse c m now).1)
        × (s.max_capacity ≡ (store c).max_capacity)
        × Inv s
        × ((id : Text) → delivered_id m ≡ some id → contains id s.cache ≡ true)
  unfolding receive
  receive-cache c m now v h = elim (Option-cases (validate parse m.content)) [
    | inl e ↦ rw (e, receive) (sym (append-nil _), refl, v, λ id d. cc)
    | inr (ev, e) ↦
        let received = record c { total_received = c.total_received + 1 } in
        let kept = accept-cache received (dedup_id m ev) now v (rw (e, receive) at h) in
        rw (e, receive)
          (
            kept.0,
            kept.1,
            kept.2,
            λ id d.
                let d' : some (dedup_id m ev) ≡ some id = rw (e, delivered_id) at d in
                subst
                  (λ k.
                    contains k (accept received (dedup_id m ev) now).0.deduplication_store.cache
                    ≡ true)
                  (some-injective _ _ d') kept.3,
          )
  ]

  -- Deliveries one after another over an open channel, and the replies to them.
  unfoldable pub deliver :
      EventConsumerService → List (ConsumeMessage × ℕ) → EventConsumerService × List Reply
  deliver c [] = (c, [])
  deliver c ((m, now) ∷ ms) =
      let (c', r) = handle_message parse c (some m) true now in
      let (c'', rs) = deliver c' ms in (c'', r ∷ rs)

  deliver-cache :
      (c : EventConsumerService) (ms : List (ConsumeMessage × ℕ))
      → Inv (store c)
      → length (store c).cache + length (processed (deliver c ms).1) ≤ (store c).max_capacity
      → let s = store (deliver c ms).0 in
        (s.cache ≡ (store c).cache ++ processed (deliver c ms).1)
        × Inv s
        × ((m : ConsumeMessage) (now : ℕ) (id : Text)
            → Member (m, now) ms
            → delivered_id m ≡ some id
            → contains id s.cache ≡ true)
  unfolding deliver handle_message
  deliver-cache c [] v h = (sym (append-nil _), v, λ m now id e d. elim e [ ])
  deliver-cache c ((m, now) ∷ ms) v h =
      let one = receive parse c m now in
      let first = receive-cache c m now v (omega (arith, total)) in
      let rest =
        deliver-cache one.0 ms first.2 (omega (arith, total, first.1, ap length first.0, count)) in
      (
        rest.0
            ∙ (ap (λ xs. xs ++ processed (deliver one.0 ms).1) first.0
                ∙ append_assoc (store c).cache (processed_by one.1)
                    (processed (deliver one.0 ms).1)),
        rest.1,
        λ m' now' id at d.
            seen m' now' id (deliver one.0 ms).0.deduplication_store.cache
              (processed (deliver one.0 ms).1) rest.0 (first.3 id) (rest.2 m' now' id) at d,
      )
    where
      total :
          length (
            processed_by (receive parse c m now).1
            ++ processed (deliver (receive parse c m now).0 ms).1)
          ≡ length (processed_by (receive parse c m now).1)
            + length (processed (deliver (receive parse c m now).0 ms).1)
      total = length-append _ _

      seen :
          (m' : ConsumeMessage) (now' : ℕ) (id : Text) (last : List Text) (new_ids : List Text)
          → last ≡ (store (receive parse c m now).0).cache ++ new_ids
          → (delivered_id m ≡ some id → contains id (store (receive parse c m now).0).cache ≡ true)
          → (Member (m', now') ms → delivered_id m' ≡ some id → contains id last ≡ true)
          → Member (m', now') ((m, now) ∷ ms)
          → delivered_id m' ≡ some id
          → contains id last ≡ true
      seen m' now' id last new_ids e here later (inl same) d =
          let d' : delivered_id m ≡ some id = subst (λ p. delivered_id p.0 ≡ some id) same d in
          let c' = here d' in
          rw e (ground (arith, contains-append id (store (receive parse c m now).0).cache new_ids))
      seen m' now' id last new_ids e here later (inr r) d = later r d

      count :
          length ((store c).cache ++ processed_by (receive parse c m now).1)
          ≡ length (store c).cache + length (processed_by (receive parse c m now).1)
      count = length-append _ _

  -- A new consumer that processes no more ids than its window holds processes each of them once:
  -- no id is processed twice, and the id of every delivery that passes the validation is processed.
  pub effectively_once :
      (capacity : ℕ) (ms : List (ConsumeMessage × ℕ))
      → length (processed (deliver (new (Dedup.new capacity)) ms).1) ≤ capacity
      → Distinct (processed (deliver (new (Dedup.new capacity)) ms).1)
        × ((m : ConsumeMessage) (now : ℕ) (id : Text)
            → Member (m, now) ms
            → delivered_id m ≡ some id
            → contains id (processed (deliver (new (Dedup.new capacity)) ms).1) ≡ true)
  unfolding new Dedup.new
  effectively_once capacity ms h =
      let kept = deliver-cache (new (Dedup.new capacity)) ms (new-Inv capacity) (omega arith) in
      (
        subst Distinct kept.0 kept.1.distinct,
        λ m now id at d. subst (λ xs. contains id xs ≡ true) kept.0 (kept.2 m now id at d),
      )
