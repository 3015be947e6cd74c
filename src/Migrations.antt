-- ===== src/Migrations.antt =====
-- Data migrations and their ledger: packages/server/src/runtime/data-migrations.ts.
--
-- An instant is a number of milliseconds. The ledger is the table `_pramen_migrations`, at most
-- one row to an (id, partition). The data that the migrations rewrite is a type `D`; `up` returns
-- the data it leaves and whether it returned or threw. What the other runners do between two
-- statements of this one, and what the clock shows, are a `Round`.
pub mod Claim
pub mod Race
pub mod Valid
pub mod Run
use pramen.Base.{
  ℕ, ◌+◌, String, Bool, true, false, not, ◌&&◌, ◌==◌, leb, Option, none, some, List, [], ◌∷◌, ◌++◌,
  keep, contains, Result, ok, err, failure, guard, ◌>>=◌, ◌>>◌, if◌then◌else◌, add,
}
use pramen.Schema.{SchemaDef, default_partition, partitions_of}

-- `leaseUntil` is NULL in the row of an applied migration.
pub record LedgerRow : Type 0 where
  pub id : String
  pub partition : String
  pub applied_at : ℕ
  pub lease_until : Option ℕ

abbrev pub Ledger : Type 0
Ledger = List LedgerRow

unfoldable pub is_row : String → String → LedgerRow → Bool
is_row id partition r = r.id == id && r.partition == partition

unfoldable pub find_row : String → String → Ledger → Option LedgerRow
unfolding is_row
find_row id partition [] = none
find_row id partition (r ∷ rs) = if is_row id partition r then some r else find_row id partition rs

-- is the lease over at `now`?
unfoldable pub expired : Option ℕ → ℕ → Bool
expired none now = false
expired (some until) now = leb until now

-- The upsert of `tryClaim`, with whether it wrote a row: a missing row is inserted, one whose lease
-- is over is taken, and any other is left.
unfoldable pub claim_row : String → String → ℕ → ℕ → Ledger → Ledger × Bool
unfolding is_row expired
claim_row id partition now ttl [] = (
  record { id = id; partition = partition; applied_at = now; lease_until = some (now + ttl) } ∷ [],
  true,
)
claim_row id partition now ttl (r ∷ rs) =
    let (rest, wrote) = claim_row id partition now ttl rs in
    if is_row id partition r
    then (if expired r.lease_until now
        then (record r { applied_at = now; lease_until = some (now + ttl) } ∷ rs, true)
        else (r ∷ rs, false))
    else (r ∷ rest, wrote)

pub data ClaimOutcome : Type 0 where
  claimed applied held : ClaimOutcome

-- the SELECT that follows when nothing was written
unfoldable pub outcome_of : Option LedgerRow → ClaimOutcome
outcome_of none = held
outcome_of (some r) = elim r.lease_until [ none ↦ applied | some until ↦ held ]

-- `tryClaim`, with nothing between its two statements
unfoldable pub try_claim : String → String → ℕ → ℕ → Ledger → Ledger × ClaimOutcome
unfolding claim_row outcome_of find_row
try_claim id partition now ttl ledger =
    let (after, wrote) = claim_row id partition now ttl ledger in
    if wrote then (after, claimed) else (after, outcome_of (find_row id partition after))

-- `complete`: the row of a held migration becomes applied
unfoldable pub complete : String → String → ℕ → Ledger → Ledger
unfolding is_row
complete id partition now [] = []
complete id partition now (r ∷ rs) =
    let rest = complete id partition now rs in
    if is_row id partition r
    then record r { applied_at = now; lease_until = none } ∷ rest
    else r ∷ rest

unfoldable pub in_flight : Option ℕ → Bool
in_flight none = false
in_flight (some until) = true

-- `release`: only a row in flight is deleted
unfoldable pub release : String → String → Ledger → Ledger
unfolding is_row in_flight keep
release id partition ledger =
    keep (λ r. not (is_row id partition r && in_flight r.lease_until)) ledger

-- `appliedMigrations`, of one partition or of all; the order of the rows is not modelled
unfoldable pub applied_rows : Option String → Ledger → List LedgerRow
unfolding in_flight keep
applied_rows none ledger = keep (λ r. not (in_flight r.lease_until)) ledger
applied_rows (some partition) ledger =
    keep (λ r. not (in_flight r.lease_until) && r.partition == partition) ledger

unfoldable pub is_done : String → String → List LedgerRow → Bool
unfolding is_row
is_done id partition [] = false
is_done id partition (r ∷ rs) = if is_row id partition r then true else is_done id partition rs

-- `LeaseOpts`, less `pollMs`: how long a runner sleeps shows in its rounds
pub record LeaseOpts : Type 0 where
  pub ttl : ℕ
  pub wait : ℕ

abbrev pub default_lease : LeaseOpts
default_lease = record { ttl = 60_000; wait = 5_000 }

-- One round of `acquire`: what the others have done to the ledger since the round before, and what
-- the clock shows at the claim and at the test of the deadline.
pub record Round : Type 0 where
  pub others : Ledger → Ledger
  pub claim_at : ℕ
  pub check_at : ℕ

-- The loop of `acquire`. `none` if the rounds end while it still waits; an error when the deadline
-- has passed.
unfoldable pub acquire_until :
    String → String → ℕ → ℕ → List Round → Ledger → Option (Result ClaimOutcome × Ledger)
unfolding try_claim
acquire_until id partition ttl deadline [] ledger = none
acquire_until id partition ttl deadline (r ∷ rs) ledger =
    let (after, outcome) = try_claim id partition r.claim_at ttl (r.others ledger) in
    elim outcome [
      | held ↦
          if leb deadline r.check_at
          then some (err failure, after)
          else acquire_until id partition ttl deadline rs after
      | claimed ↦ some (ok claimed, after)
      | applied ↦ some (ok applied, after)
    ]

unfoldable pub acquire :
    String → String → LeaseOpts → ℕ → List Round → Ledger → Option (Result ClaimOutcome × Ledger)
unfolding acquire_until
acquire id partition lease start rounds ledger =
    acquire_until id partition lease.ttl (start + lease.wait) rounds ledger

pub record DataMigration (D : Type 0) : Type 0 where
  pub id : String
  pub partition : Option String
  -- the data it leaves, and whether it returned
  pub up : D → D × Bool

unfoldable pub owner : Option String → String
owner none = default_partition
owner (some p) = p

-- `migrationsForPartition`
unfoldable pub migrations_for_partition :
    {D : Type 0} → List (DataMigration D) → String → List (DataMigration D)
unfolding keep owner
migrations_for_partition ms partition = keep (λ m. owner m.partition == partition) ms

unfoldable pub selected :
    {D : Type 0} → List (DataMigration D) → Option String → List (DataMigration D)
unfolding migrations_for_partition
selected ms none = ms
selected ms (some partition) = migrations_for_partition ms partition

pub record World (D : Type 0) : Type 0 where
  pub ledger : Ledger
  pub state : D

-- When a migration is reached, what its `acquire` meets and when its `complete` runs.
pub record Visit : Type 0 where
  pub start : ℕ
  pub rounds : List Round
  pub completed_at : ℕ

pub data Ran (D : Type 0) : Type 0 where
  -- the migration ran, or another runner had finished it
  did skipped : World D → Ran D
  -- it threw, or the lease was not to be had
  failed : World D → Ran D
  -- the rounds ended while it waited
  waiting : Ran D

-- The body of the transaction. The Durable Object rolls a failure back, D1 does not.
module _ {D : Type 0} (rollback : Bool) (lease : LeaseOpts) where
  unfoldable pub abort : World D → World D → World D
  abort before now = if rollback then before else now

  unfoldable pub work : DataMigration D → String → ℕ → World D → World D → Ran D
  unfolding complete release abort
  work m partition at before w =
      let (state, returned) = m.up w.state in
      if returned
      then did (record { ledger = complete m.id partition at w.ledger; state = state })
      else failed
          (abort before (record { ledger = release m.id partition w.ledger; state = state }))

  unfoldable pub attempt : DataMigration D → Visit → World D → Ran D
  unfolding acquire work owner abort
  attempt m v w = elim (acquire m.id (owner m.partition) lease v.start v.rounds w.ledger) [
    | none ↦ waiting
    | some (err e, ledger) ↦ failed (abort w (record w { ledger = ledger }))
    | some (ok claimed, ledger) ↦
        work m (owner m.partition) v.completed_at w (record w { ledger = ledger })
    | some (ok _, ledger) ↦ skipped (record w { ledger = ledger })
  ]

pub record Report (D : Type 0) : Type 0 where
  pub world : World D
  pub applied : List String
  pub skipped : List String
  -- whether the run ended without an error
  pub finished : Bool

-- `runDataMigrations`: in order, stopping at the first failure. `done` is the ledger as it was read
-- at the start.
module _ {D : Type 0} (rollback : Bool) (lease : LeaseOpts) (visit : String → Visit) where
  unfoldable pub run_from :
      List LedgerRow
      → List (DataMigration D)
      → World D
      → List String
      → List String
      → Option (Report D)
  unfolding is_done owner attempt
  run_from done [] w applied' skipped' =
      some (record { world = w; applied = applied'; skipped = skipped'; finished = true })
  run_from done (m ∷ ms) w applied' skipped' =
      if is_done m.id (owner m.partition) done
      then run_from done ms w applied' (skipped' ++ m.id ∷ [])
      else elim (attempt rollback lease m (visit m.id) w) [
        | did w' ↦ run_from done ms w' (applied' ++ m.id ∷ []) skipped'
        | skipped w' ↦ run_from done ms w' applied' (skipped' ++ m.id ∷ [])
        | failed w' ↦
            some (record { world = w'; applied = applied'; skipped = skipped'; finished = false })
        | waiting ↦ none
      ]

  unfoldable pub run_data_migrations :
      List (DataMigration D) → Option String → World D → Option (Report D)
  unfolding run_from applied_rows selected
  run_data_migrations ms partition w =
      run_from (applied_rows partition w.ledger) (selected ms partition) w [] []

-- `validateMigrations`
unfoldable pub known_partition : List String → Option String → Bool
unfolding contains
known_partition known none = true
known_partition known (some p) = contains p known

unfoldable pub validate_from :
    {D : Type 0} → List String → List (DataMigration D) → List String → Result (Unit {0})
unfolding known_partition contains add
validate_from known [] seen = ok tt
validate_from known (m ∷ ms) seen = do
  guard (not (m.id == "")) failure
  guard (not (contains m.id seen)) failure
  guard (known_partition known m.partition) failure
  validate_from known ms (add m.id seen)

unfoldable pub validate_migrations :
    {D : Type 0} → SchemaDef → List (DataMigration D) → Result (Unit {0})
unfolding validate_from partitions_of add
validate_migrations schema ms = validate_from (add default_partition (partitions_of schema)) ms []
