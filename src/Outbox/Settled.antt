-- ===== src/Outbox/Settled.antt =====
-- What a pass over a batch leaves: none of the batch's tasks is still in processing.
use pramen.Base.{
  ℕ, suc, String, ◌≡◌, refl, ◌∙◌, Bool, true, false, ◌==◌, eq_iff, Option, List, [], ◌∷◌, keep,
  contains, arith, if◌then◌else◌, Option-cases, inl, inr,
}
use pramen.Outbox.{
  Task, is_processing, is_claimable, mark, batch, claim, update_row, stamp, succeed, fail, process,
  process_all, drain_outbox, prune,
}
use pramen.Outbox.Drain.{has_id, contains-batch}

-- Is a task with the id in processing?
unfoldable pub in_processing : String → List Task → Bool
unfolding has_id
in_processing x table = has_id x (λ (r : Task). is_processing r.status) table

in_processing-stamp :
    (x id : String) (at : ℕ) (table : List Task)
    → in_processing x (update_row id (stamp at) table) ≡ in_processing x table
unfolding in_processing has_id update_row stamp
in_processing-stamp x id at [] = refl
in_processing-stamp x id at (r ∷ rs) = ground (arith, in_processing-stamp x id at rs)

-- A row that succeeds or fails is no longer in processing, and no other row comes to be.
in_processing-succeed :
    (x id : String) (n at : ℕ) (table : List Task)
    → in_processing x (update_row id (succeed n at) table)
      ≡ (if id == x then false else in_processing x table)
unfolding in_processing has_id update_row succeed is_processing
in_processing-succeed x id n at [] = ground arith
in_processing-succeed x id n at (r ∷ rs) =
    ground (arith, in_processing-succeed x id n at rs, eq_iff r.id id, eq_iff id x, eq_iff r.id x)

in_processing-fail :
    (x id : String) (n now : ℕ) (message : String) (table : List Task)
    → in_processing x (update_row id (fail n now message) table)
      ≡ (if id == x then false else in_processing x table)
unfolding in_processing has_id update_row fail is_processing
in_processing-fail x id n now message [] = ground arith
in_processing-fail x id n now message (r ∷ rs) =
    ground
      (arith, in_processing-fail x id n now message rs, eq_iff r.id id, eq_iff id x, eq_iff r.id x)

module _ (run : String → String → String → ℕ → Option String) (clock : String → ℕ × ℕ)
    (now : ℕ) where
  in_processing-process :
      (x : String) (r : Task) (table : List Task)
      → in_processing x (process run clock now r table).0
        ≡ (if r.id == x then false else in_processing x table)
  unfolding process
  in_processing-process x r table =
      let started = update_row r.id (stamp (clock r.id).0) table in
      elim (Option-cases (run r.kind r.payload r.id (suc r.attempts))) [
        | inl e ↦
            rw (process, e)
              (in_processing-succeed x r.id (suc r.attempts) (clock r.id).1 started
                ∙ rw (in_processing-stamp x r.id (clock r.id).0 table) refl)
        | inr (message, e) ↦
            rw (process, e)
              (in_processing-fail x r.id (suc r.attempts) now message started
                ∙ rw (in_processing-stamp x r.id (clock r.id).0 table) refl)
      ]

  in_processing-process_all :
      (x : String) (rs table : List Task)
      → in_processing x (process_all run clock now rs table).0
        ≡ (if has_id x (λ r. true) rs then false else in_processing x table)
  unfolding process_all has_id
  in_processing-process_all x [] table = refl
  in_processing-process_all x (r ∷ rs) table = ground (
    arith,
    in_processing-process_all x rs (process run clock now r table).0,
    in_processing-process x r table,
  )

-- a row that is marked is among those that the claim returns
has_id-returned :
    (x : String) (now : ℕ) (ids : List String) (p : Task → Bool) (table : List Task)
    → contains x ids ≡ true
    → has_id x p table ≡ true
    → has_id x (λ r. true) (keep (λ (r : Task). contains r.id ids) (mark now ids table)) ≡ true
unfolding has_id mark keep
has_id-returned x now ids p [] c h = ground arith
has_id-returned x now ids p (r ∷ rs) c h =
    ground (arith, has_id-returned x now ids p rs c, eq_iff r.id x)

-- A drain leaves none of the tasks that it claimed in processing: whatever their handlers do, each is
-- done, pending again or dead-lettered.
pub drain_outbox-settled :
    (run : String → String → String → ℕ → Option String) (clock : String → ℕ × ℕ)
    (wall now limit : ℕ) (table : List Task) (x : String)
    → contains x (batch now limit (prune wall table)) ≡ true
    → in_processing x (drain_outbox run clock wall now limit table).0 ≡ false
unfolding drain_outbox claim
drain_outbox-settled run clock wall now limit table x c =
    let ids = batch now limit (prune wall table) in
    let claimed = keep (λ (r : Task). contains r.id ids) (mark now ids (prune wall table)) in
    in_processing-process_all run clock now x claimed (mark now ids (prune wall table))
    ∙ rw
        (has_id-returned x now ids (is_claimable now) (prune wall table) c
          (contains-batch x now limit (prune wall table) c))
        refl
