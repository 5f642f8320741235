-- ===== src/Chaos/Burst.antt =====
-- What a burst of mutations does to the rows of the table.
use mathlib.Core.Option.{some-injective}
use optio_test.Prelude.{
  ℕ, ◌+◌, ◌/◌, ◌<◌, ◌≡◌, ◌⊎◌, refl, sym, subst, inl, inr, true, false, Option, none, some, List, [],
  ◌∷◌, Member, Member-append_left, arith, length, ◌==◌, Bool-cases, Option-cases,
}
use optio_test.Prelude.Order.{select}
use optio_test.Types.{Json}
use optio_test.Source.{SourceRow, is_newer}
use optio_test.Chaos.{
  Stamp, with_payload, mutated, candidates, update_rows, is_among, generate_source_mutations,
}

-- A row stands in a list as it was, or changed where its id is listed.
abbrev pub Stands : (SourceRow → Option SourceRow) → List ℕ → SourceRow → List SourceRow → Type 0
Stands f ids r rs =
    ((is_among ids r.id ≡ true) × ((q : SourceRow) × (f r ≡ some q) × Member q rs))
    ⊎ ((is_among ids r.id ≡ false) × Member r rs)

-- A row that was drawn and throws.
abbrev pub Throws : (SourceRow → Option SourceRow) → List ℕ → List SourceRow → Type 0
Throws f ids rs = (q : SourceRow) × Member q rs × (is_among ids q.id ≡ true) × (f q ≡ none)

widened :
    (f : SourceRow → Option SourceRow) (ids : List ℕ) (r : SourceRow) (xs ys : List SourceRow)
    → ((z : SourceRow) → Member z xs → Member z ys)
    → Stands f ids r xs
    → Stands f ids r ys
widened f ids r xs ys h (inl (a, (q, e, m))) = inl (a, (q, e, h q m))
widened f ids r xs ys h (inr (a, m)) = inr (a, h r m)

-- What an UPDATE leaves: every row stands in its answer, or some row throws.
abbrev Updated :
    (SourceRow → Option SourceRow) → List ℕ → List SourceRow → Option (List SourceRow) → Type 0
Updated f ids rs none = Throws f ids rs
Updated f ids rs (some us) = (r : SourceRow) → Member r rs → Stands f ids r us

module _ (f : SourceRow → Option SourceRow) (ids : List ℕ) where
  later-Throws : (x : SourceRow) (rs : List SourceRow) → Throws f ids rs → Throws f ids (x ∷ rs)
  later-Throws x rs (q, m, drawn, e) = (q, inr m, drawn, e)

  one_more :
      (x y : SourceRow) (rs us : List SourceRow)
      → Stands f ids x (y ∷ us)
      → ((r : SourceRow) → Member r rs → Stands f ids r us)
      → (r : SourceRow) → Member r (x ∷ rs)
      → Stands f ids r (y ∷ us)
  one_more x y rs us first rest r (inl e) = subst (λ z. Stands f ids z (y ∷ us)) (sym e) first
  one_more x y rs us first rest r (inr m) = widened f ids r us (y ∷ us) (λ z k. inr k) (rest r m)

  update_rows-Updated : (rs : List SourceRow) → Updated f ids rs (update_rows f ids rs)
  unfolding update_rows
  update_rows-Updated [] = λ r m. elim m [ ]
  update_rows-Updated (x ∷ rs) =
      let rest = update_rows-Updated rs in
      elim (Bool-cases (is_among ids x.id)) [
        | inl k ↦ elim (Option-cases (f x)) [
          | inl none_given ↦ rw (k, none_given, update_rows) (x, inl refl, k, none_given)
          | inr (q, given) ↦ elim (Option-cases (update_rows f ids rs)) [
            | inl e ↦
                rw (k, given, e, update_rows) (later-Throws x rs (subst (Updated f ids rs) e rest))
            | inr (us, e) ↦
                rw (k, given, e, update_rows)
                  (one_more x q rs us (inl (k, (q, given, inl refl)))
                    (subst (Updated f ids rs) e rest))
          ]
        ]
        | inr k ↦ elim (Option-cases (update_rows f ids rs)) [
          | inl e ↦ rw (k, e, update_rows) (later-Throws x rs (subst (Updated f ids rs) e rest))
          | inr (us, e) ↦
              rw (k, e, update_rows)
                (one_more x x rs us (inr (k, inl refl)) (subst (Updated f ids rs) e rest))
        ]
      ]

nothing : {q : SourceRow} → ¬ (none ≡ some q)
nothing h = cc

-- A row that is changed has the next version, and is newer than every watermark before the burst.
mutated_lem :
    (add_balance : Json → Option Json) (now_us : ℕ) (r q : SourceRow) (at id : ℕ)
    → at < now_us / 1000
    → mutated add_balance now_us r ≡ some q
    → (q.version ≡ r.version + 1) × (is_newer at id q ≡ true)
unfolding mutated with_payload
mutated_lem add_balance now_us r q at id before e = elim (Option-cases (add_balance r.payload)) [
  | inl h ↦ let e' : none ≡ some q = rw (h, mutated) at e in absurd (nothing e')
  | inr (j, h) ↦
      let e' : some (with_payload now_us r j) ≡ some q = rw (h, mutated) at e in
      subst (λ (z : SourceRow). (z.version ≡ r.version + 1) × (is_newer at id z ≡ true))
        (some-injective _ _ e') (refl, ground arith)
]

module _ (by_random : List SourceRow → List SourceRow) (add_balance : Json → Option Json)
    (stamps : ℕ → Stamp) (now_us count : ℕ) (table : List SourceRow) where
  abbrev drawn_ids : List ℕ
  drawn_ids = candidates by_random count table

  abbrev after : List SourceRow × Option ℕ
  after = generate_source_mutations by_random add_balance stamps now_us count table

  generate-Stands :
      (us : List SourceRow)
      → update_rows (mutated add_balance now_us) drawn_ids table ≡ some us
      → (n : ℕ) × (after.1 ≡ some n)
        × ((r : SourceRow)
            → Stands (mutated add_balance now_us) drawn_ids r us
            → Stands (mutated add_balance now_us) drawn_ids r after.0)
  unfolding generate_source_mutations
  generate-Stands us e =
      let f = mutated add_balance now_us in
      elim (Bool-cases (length (select (λ r'. is_among drawn_ids r'.id) table) == 0)) [
        | inl h ↦
            rw (e, h, generate_source_mutations)
              (_, refl, λ r. widened f drawn_ids r us _ (λ z m. Member-append_left z us _ m))
        | inr h ↦ rw (e, h, generate_source_mutations) (_, refl, λ r s. s)
      ]

  -- A burst of mutations throws and leaves the table as it was, which happens only where a row that
  -- was drawn has a balance that cannot be raised, such as a poison pill; or it answers with a count,
  -- and every row of the table stands as it was if it was not drawn, and if it was, stands with the
  -- next version and is newer than every watermark before the burst, so that the incremental
  -- replication selects it.
  pub generate_source_mutations_lem :
      (r : SourceRow) (at id : ℕ)
      → Member r table
      → at < now_us / 1000
      → ((after.1 ≡ none) × (after.0 ≡ table) × Throws (mutated add_balance now_us) drawn_ids table)
        ⊎ ((n : ℕ) × (after.1 ≡ some n)
            × (((is_among drawn_ids r.id ≡ true)
                  × ((q : SourceRow) × (mutated add_balance now_us r ≡ some q)
                      × Member q after.0
                      × (q.version ≡ r.version + 1)
                      × (is_newer at id q ≡ true)))
                ⊎ ((is_among drawn_ids r.id ≡ false) × Member r after.0)))
  unfolding generate_source_mutations
  generate_source_mutations_lem r at id m before =
      let f = mutated add_balance now_us in
      let updated = update_rows-Updated f drawn_ids table in
      elim (Option-cases (update_rows f drawn_ids table)) [
        | inl e ↦ inl (
            rw (e, generate_source_mutations)
              (refl, refl, subst (Updated f drawn_ids table) e updated))
        | inr (us, e) ↦
            let (n, answered, kept) = generate-Stands us e in
            let stands = subst (Updated f drawn_ids table) e updated in
            inr (
              n,
              answered,
              elim (kept r (stands r m)) [
                | inl (drawn, (q, changed, at_q)) ↦
                    let (next, newer) = mutated_lem add_balance now_us r q at id before changed in
                    inl (drawn, (q, changed, at_q, next, newer))
                | inr h ↦ inr h
              ],
            )
      ]
