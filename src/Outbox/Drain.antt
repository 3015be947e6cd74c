-- ===== src/Outbox/Drain.antt =====
-- What a drain claims, counts and reports.
use pramen.Base.{
  ℕ, zero, suc, ◌+◌, ◌<◌, max, String, ◌≡◌, refl, sym, ◌∙◌, Bool, true, false, ◌&&◌, ◌||◌, ◌==◌,
  eq_iff, Option, none, some, List, [], ◌∷◌, leb, any, keep, contains, length, arith, Bool-cases,
  inl, inr,
}
use pramen.Outbox.{
  Task, is_pending, is_processing, is_stale, stale_ms, stale_at, is_claimable, insert_by_age,
  by_age, first_ids, mark, batch, claim, sooner, next_pending, next_stale, next_run_at, process,
  process_all, drain_outbox, prune,
}

-- Has some row that `p` selects the id `x`?
unfoldable pub has_id : String → (Task → Bool) → List Task → Bool
has_id x p [] = false
has_id x p (r ∷ rs) = (r.id == x && p r) || has_id x p rs

module _ (x : String) (p : Task → Bool) where
  has_id-insert :
      (r : Task) (rs : List Task)
      → has_id x p (insert_by_age r rs) ≡ ((r.id == x && p r) || has_id x p rs)
  unfolding has_id insert_by_age
  has_id-insert r [] = refl
  has_id-insert r (y ∷ ys) = ground (arith, has_id-insert r ys)

  has_id-by_age : (rs : List Task) → has_id x p (by_age rs) ≡ has_id x p rs
  unfolding has_id by_age
  has_id-by_age [] = refl
  has_id-by_age (r ∷ rs) = has_id-insert r (by_age rs) ∙ rw (has_id-by_age rs) refl

  has_id-keep : (rs : List Task) → has_id x (λ r. true) (keep p rs) ≡ has_id x p rs
  unfolding has_id keep
  has_id-keep [] = refl
  has_id-keep (r ∷ rs) = ground (arith, has_id-keep rs)

contains-first_ids :
    (x : String) (n : ℕ) (rs : List Task)
    → contains x (first_ids n rs) ≡ true
    → has_id x (λ r. true) rs ≡ true
unfolding contains first_ids has_id
contains-first_ids x zero rs h = ground arith
contains-first_ids x (suc n) [] h = ground arith
contains-first_ids x (suc n) (r ∷ rs) h = ground (arith, contains-first_ids x n rs)

-- only a claimable row is claimed
pub contains-batch :
    (x : String) (now limit : ℕ) (table : List Task)
    → contains x (batch now limit table) ≡ true
    → has_id x (is_claimable now) table ≡ true
unfolding batch
contains-batch x now limit table h =
    sym (has_id-keep x (is_claimable now) table)
    ∙ sym (has_id-by_age x (λ r. true) (keep (is_claimable now) table))
    ∙ contains-first_ids x (max 1 limit) (by_age (keep (is_claimable now) table)) h

has_id-mark :
    (x : String) (now later : ℕ) (ids : List String) (table : List Task)
    → later < now + stale_ms
    → contains x ids ≡ true
    → has_id x (is_claimable later) (mark now ids table) ≡ false
unfolding has_id mark is_claimable is_pending is_processing is_stale
has_id-mark x now later ids [] soon h = refl
has_id-mark x now later ids (r ∷ rs) soon h =
    ground (arith, has_id-mark x now later ids rs soon h, eq_iff r.id x)

-- Concurrent drainers claim disjoint batches: a row that one claim took is in no batch that another
-- takes from the table it left, until STALE_MS have passed.
pub claim-disjoint :
    (x : String) (now later limit limit' : ℕ) (table : List Task)
    → later < now + stale_ms
    → contains x (batch now limit table) ≡ true
    → contains x (batch later limit' (claim now limit table).0) ≡ false
unfolding claim
claim-disjoint x now later limit limit' table soon h =
    let none_left = has_id-mark x now later (batch now limit table) table soon h in
    elim (Bool-cases (contains x (batch later limit' (mark now (batch now limit table) table)))) [
      | inl again ↦
          cc (contains-batch x later limit' (mark now (batch now limit table) table) again)
      | inr never ↦ never
    ]

-- Does the time come by `m`?
unfoldable pub by_then : Option ℕ → ℕ → Bool
by_then none m = false
by_then (some n) m = leb n m

by_then-sooner : (a b : Option ℕ) (m : ℕ) → by_then (sooner a b) m ≡ (by_then a m || by_then b m)
unfolding by_then sooner
by_then-sooner none b m = refl
by_then-sooner (some a) none m = ground arith
by_then-sooner (some a) (some b) m = ground arith

by_then-stale_at : (c : Option ℕ) (m : ℕ) → by_then (stale_at c) m ≡ is_stale m c
unfolding by_then stale_at is_stale
by_then-stale_at none m = refl
by_then-stale_at (some at) m = refl

by_then-next_pending :
    (table : List Task) (m : ℕ)
    → by_then (next_pending table) m
      ≡ any (λ (r : Task). is_pending r.status && leb r.run_at m) table
unfolding next_pending any by_then
by_then-next_pending [] m = refl
by_then-next_pending (r ∷ rs) m =
    ground (arith, by_then-next_pending rs m, by_then-sooner (some r.run_at) (next_pending rs) m)

by_then-next_stale :
    (table : List Task) (m : ℕ)
    → by_then (next_stale table) m
      ≡ any (λ (r : Task). is_processing r.status && is_stale m r.claimed_at) table
unfolding next_stale any by_then
by_then-next_stale [] m = refl
by_then-next_stale (r ∷ rs) m = ground (
  arith,
  by_then-next_stale rs m,
  by_then-sooner (stale_at r.claimed_at) (next_stale rs) m,
  by_then-stale_at r.claimed_at m,
)

-- No task stalls: the wake-up that a drain reports comes by an instant exactly if by then some
-- pending task is due or some claim is stale.
pub next_run_at-by_then :
    (table : List Task) (m : ℕ)
    → by_then (next_run_at table) m ≡ (
        any (λ (r : Task). is_pending r.status && leb r.run_at m) table
        || any (λ (r : Task). is_processing r.status && is_stale m r.claimed_at) table)
unfolding next_run_at
next_run_at-by_then table m =
    by_then-sooner (next_pending table) (next_stale table) m
    ∙ rw (by_then-next_pending table m, by_then-next_stale table m) refl

module _ (run : String → String → String → ℕ → Option String) (clock : String → ℕ × ℕ)
    (now : ℕ) where
  process_all-counts :
      (rs table : List Task)
      → ((process_all run clock now rs table).1.0 + (process_all run clock now rs table).1.1)
        ≡ length rs
  unfolding process_all
  process_all-counts [] table = refl
  process_all-counts (r ∷ rs) table =
      ground (arith, process_all-counts rs (process run clock now r table).0)

-- Each claimed task is counted once: the successes and failures that a drain reports add up to what
-- it processed, which is the size of the batch it claimed.
pub drain_outbox-counts :
    (run : String → String → String → ℕ → Option String) (clock : String → ℕ × ℕ)
    (wall now limit : ℕ) (table : List Task)
    → ((drain_outbox run clock wall now limit table).1.succeeded
          + (drain_outbox run clock wall now limit table).1.failed
        ≡ (drain_outbox run clock wall now limit table).1.processed)
      × ((drain_outbox run clock wall now limit table).1.processed
          ≡ length (claim now limit (prune wall table)).1)
unfolding drain_outbox
drain_outbox-counts run clock wall now limit table = (
  process_all-counts run clock now (claim now limit (prune wall table)).1
      (claim now limit (prune wall table)).0,
  refl,
)
