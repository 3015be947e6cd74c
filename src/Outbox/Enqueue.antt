-- ===== src/Outbox/Enqueue.antt =====
-- Idempotency keys: what a second enqueue with the same key does.
use pramen.Base.{
  ℕ, String, ◌≡◌, refl, Bool, true, false, ◌==◌, eq_iff, Option, some, List, [], ◌∷◌, All, arith,
  Option-cases, inl, inr, ok,
}
use pramen.Cell.Int.{ℤ}
use pramen.Outbox.{Task, is_failed, same_dedup, upsert, owns, enqueue_task, new_task, EnqueueOpts}

module _ (key : String × String) where
  -- After an upsert of a live task, the next one with the same key writes nothing.
  pub upsert-repeat :
      (new again : Task) (table : List Task)
      → same_dedup key new.dedup_key ≡ true
      → is_failed new.status ≡ false
      → upsert key again (upsert key new table).0 ≡ ((upsert key new table).0, false)
  unfolding upsert
  upsert-repeat new again [] h live = ground arith
  upsert-repeat new again (r ∷ rs) h live = ground (arith, upsert-repeat new again rs h live)

  -- Where no row has the fresh id, the row with the key has it exactly if the upsert wrote.
  pub owns-upsert :
      (new : Task) (table : List Task)
      → same_dedup key new.dedup_key ≡ true
      → All (λ (r : Task). (r.id == new.id) ≡ false) table
      → owns key new.id (upsert key new table).0 ≡ (upsert key new table).1
  unfolding owns upsert
  owns-upsert new [] h fresh = ground (arith, eq_iff new.id new.id)
  owns-upsert new (r ∷ rs) h (f, fs) = ground (arith, owns-upsert new rs h fs, eq_iff new.id new.id)

same_dedup_refl : (kind key : String) → same_dedup (kind, key) (some (kind, key)) ≡ true
unfolding same_dedup
same_dedup_refl kind key = ground (arith, eq_iff kind kind, eq_iff key key)

-- Enqueuing with a key is idempotent: on a dialect with RETURNING, after a task has been enqueued
-- under a kind and a key, a second enqueue with them leaves the table as it is and answers false,
-- whatever its id, its time, its payload and its delay.
pub enqueue_task-repeat :
    (kind key : String) (payload payload' : String) (delay delay' : Option ℤ)
    (fresh fresh' : String) (now now' : ℕ) (table after : List Task) (wrote : Bool)
    → enqueue_task true fresh now
        (record { kind = kind; payload = payload; delay_ms = delay; key = some key })
        table
      ≡ ok (after, wrote)
    → enqueue_task true fresh' now'
        (record { kind = kind; payload = payload'; delay_ms = delay'; key = some key })
        after
      ≡ ok (after, false)
unfolding enqueue_task
enqueue_task-repeat kind key payload payload' delay delay' fresh fresh' now now' table after wrote
      h =
    let new =
      new_task fresh now
        (record { kind = kind; payload = payload; delay_ms = delay; key = some key })
        (some (kind, key)) in
    let again =
      new_task fresh' now'
        (record { kind = kind; payload = payload'; delay_ms = delay'; key = some key })
        (some (kind, key)) in
    ground (arith, upsert-repeat (kind, key) new again table (same_dedup_refl kind key) refl)

-- Both dialects answer alike: where no row carries the minted id, asking the table whether the row
-- with the key is ours gives what RETURNING gives.
pub enqueue_task-returning :
    (fresh : String) (now : ℕ) (opts : EnqueueOpts) (table : List Task)
    → All (λ (r : Task). (r.id == fresh) ≡ false) table
    → enqueue_task false fresh now opts table ≡ enqueue_task true fresh now opts table
unfolding enqueue_task
enqueue_task-returning fresh now opts table h = elim (Option-cases opts.key) [
  | inl e ↦ rw e refl
  | inr (key, e) ↦
      rw
        (
          e,
          owns-upsert (opts.kind, key) (new_task fresh now opts (some (opts.kind, key))) table
              (same_dedup_refl opts.kind key) h,
        )
        refl
]
