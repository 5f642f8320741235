-- ===== src/Checkpoint/Laws.antt =====
-- Reading back what was written.
use optio_test.Prelude.{
  subst, ℕ, ◌≡◌, refl, ap, ◌⊎◌, inl, inr, false, none, some, [], ◌∷◌, ◌++◌, arith, Bool-cases,
  Option-cases, if◌then◌else◌,
}
use mathlib.Core.Option
use optio_test.Prelude.Text.{Text, text_eq, text_eq→eq, text_eq_self}
use optio_test.Types.{PipelineStatus, ReplicationCheckpoint}
use optio_test.Checkpoint.{
  Checkpoints, select_row, update_rows, initial_row, insert_missing, get_checkpoint,
  CheckpointCommitData, committed, commit_checkpoint, with_status, update_status,
}

-- An update that keeps the key changes the row of its key, and no other.
pub select_row-update_rows :
    (k id : Text) (f : ReplicationCheckpoint → ReplicationCheckpoint) (cs : Checkpoints)
    → ((c : ReplicationCheckpoint) → (f c).pipeline_id ≡ c.pipeline_id)
    → select_row k (update_rows id f cs)
      ≡ (if text_eq id k then Option.map f (select_row k cs) else select_row k cs)
unfolding select_row update_rows
select_row-update_rows k id f [] keep = ground arith
select_row-update_rows k id f (c ∷ cs) keep =
    let later = select_row-update_rows k id f cs keep in
    let key = ap (λ t. text_eq t k) (keep c) in
    elim (Bool-cases (text_eq c.pipeline_id id)) [
      | inl e ↦
          let same = ap (λ t. text_eq t k) (text_eq→eq c.pipeline_id id e) in
          ground (arith, later, key, same)
      | inr e ↦ elim (Bool-cases (text_eq id k)) [
        | inl h ↦
            let other = ap (text_eq c.pipeline_id) (text_eq→eq id k h) in
            ground (arith, later, other)
        | inr h ↦ ground (arith, later)
      ]
    ]

select_row_key :
    (id : Text) (cs : Checkpoints) {c : ReplicationCheckpoint}
    → select_row id cs ≡ some c
    → c.pipeline_id ≡ id
unfolding select_row
select_row_key id [] {c} e = cc
select_row_key id (x ∷ xs) {c} e =
    ground (arith, select_row_key id xs {c = c}, text_eq→eq x.pipeline_id id)

select_row-insert :
    (id : Text) (now : ℕ) (cs : Checkpoints)
    → select_row id cs ≡ none
    → select_row id (cs ++ (initial_row id now ∷ [])) ≡ some (initial_row id now)
unfolding select_row
select_row-insert id now [] e = ground (arith, text_eq_self id)
select_row-insert id now (c ∷ cs) e = ground (arith, select_row-insert id now cs)

select_row-insert_ne :
    (k id : Text) (now : ℕ) (cs : Checkpoints)
    → text_eq id k ≡ false
    → select_row k (cs ++ (initial_row id now ∷ [])) ≡ select_row k cs
unfolding select_row
select_row-insert_ne k id now [] n = ground arith
select_row-insert_ne k id now (c ∷ cs) n = ground (arith, select_row-insert_ne k id now cs n)

-- A statement on one pipeline's row, read back for any pipeline.
either_row :
    (id k : Text) (cs new : Checkpoints) (c : ReplicationCheckpoint)
    → select_row id new ≡ some c
    → (text_eq id k ≡ false → select_row k new ≡ select_row k cs)
    → select_row k new ≡ (if text_eq id k then some c else select_row k cs)
either_row id k cs new c found others = elim (Bool-cases (text_eq id k)) [
  | inl e ↦ rw e (subst (λ t. select_row t new ≡ some c) (text_eq→eq id k e) found)
  | inr e ↦ rw e (others e)
]

pub get_checkpoint_row :
    (id : Text) (now : ℕ) (cs : Checkpoints)
    → (c : ReplicationCheckpoint) × ((get_checkpoint id now cs).1 ≡ some c)
      × (select_row id (get_checkpoint id now cs).0 ≡ some c)
      × ((select_row id cs ≡ some c) ⊎ (c ≡ initial_row id now))
      × ((k : Text)
          → text_eq id k ≡ false
          → select_row k (get_checkpoint id now cs).0 ≡ select_row k cs)
unfolding get_checkpoint
get_checkpoint_row id now cs = elim (Option-cases (select_row id cs)) [
  | inl e ↦
      let put = select_row-insert id now cs e in
      rw (e, get_checkpoint)
        (rw (e, insert_missing)
          (initial_row id now, put, put, inr refl, λ k n. select_row-insert_ne k id now cs n))
  | inr (c, e) ↦ rw (e, get_checkpoint) (c, refl, e, inl refl, λ k n. refl)
]

-- Getting a checkpoint never fails: it gives the pipeline's row, as it stood or, if it was missing,
-- new and with the watermark 0. The table then holds that row for the pipeline, and what it held
-- for every other.
pub get_checkpoint_total :
    (id k : Text) (now : ℕ) (cs : Checkpoints)
    → (c : ReplicationCheckpoint) × ((get_checkpoint id now cs).1 ≡ some c)
      × ((select_row id cs ≡ some c) ⊎ (c ≡ initial_row id now))
      × (select_row k (get_checkpoint id now cs).0
          ≡ (if text_eq id k then some c else select_row k cs))
get_checkpoint_total id k now cs =
    let (c, read, found, origin, others) = get_checkpoint_row id now cs in
    (c, read, origin, either_row id k cs (get_checkpoint id now cs).0 c found (others k))

pub commit_checkpoint_same :
    (id : Text) (d : CheckpointCommitData) (now : ℕ) (cs : Checkpoints) (c : ReplicationCheckpoint)
    → select_row id cs ≡ some c
    → select_row id (commit_checkpoint id d now cs) ≡ some (committed d now c)
unfolding commit_checkpoint
commit_checkpoint_same id d now cs c e =
    ground (arith, select_row-update_rows id id (committed d now) cs (λ x. refl), text_eq_self id)

pub update_status_lem :
    (id : Text) (s : PipelineStatus) (now : ℕ) (cs : Checkpoints) (c : ReplicationCheckpoint)
    → select_row id cs ≡ some c
    → select_row id (update_status id s now cs) ≡ some (with_status s now c)
unfolding update_status
update_status_lem id s now cs c e =
    ground (arith, select_row-update_rows id id (with_status s now) cs (λ x. refl), text_eq_self id)
