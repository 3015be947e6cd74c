-- ===== src/Outbox.antt =====
-- The outbox of deferred tasks: packages/server/src/runtime/outbox.ts.
--
-- The table `_pramen_outbox` is a list of rows. An instant is a number of milliseconds. A
-- subtraction from an instant is written as an addition on the other side of its comparison. A key
-- is the pair that `JSON.stringify([kind, key])` encodes. The rows come in the table's order where
-- SQL leaves the order open. What a task handler itself writes to the table is not modelled.
pub mod Enqueue
pub mod Drain
pub mod Settled
use pramen.Base.{
  ℕ, zero, suc, ◌+◌, ◌*◌, ◌^◌, min, max, String, Bool, true, false, not, ◌&&◌, ◌||◌, ◌==◌, ltb, leb,
  Option, none, some, List, [], ◌∷◌, ◌++◌, keep, contains, length, Result, ok, err, failure, guard,
  ◌>>=◌, ◌>>◌, if◌then◌else◌, map,
}
use pramen.Cell.Int.{ℤ, pos, negsuc}

pub data TaskStatus : Type 0 where
  pending processing done failed : TaskStatus

pub record Task : Type 0 where
  pub id : String
  pub kind : String
  pub payload : String
  pub status : TaskStatus
  pub attempts : ℕ
  pub run_at : ℕ
  pub created_at : ℕ
  pub claimed_at : Option ℕ
  pub last_error : Option String
  pub dedup_key : Option (String × String)

abbrev pub max_attempts : ℕ
max_attempts = 5

abbrev pub stale_ms : ℕ
stale_ms = 60_000

abbrev pub done_retention_ms : ℕ
done_retention_ms = 3_600_000

-- `backoffMs`
unfoldable pub backoff_ms : ℕ → ℕ
backoff_ms attempts = min (2 ^ attempts * 1000) 300_000

pub record EnqueueOpts : Type 0 where
  pub kind : String
  -- the payload as JSON text
  pub payload : String
  pub delay_ms : Option ℤ
  pub key : Option String

-- `Math.max(0, Math.trunc(opts.delayMs ?? 0))`
unfoldable pub delay : Option ℤ → ℕ
delay (some (pos n)) = n
delay _ = 0

unfoldable pub is_failed : TaskStatus → Bool
is_failed failed = true
is_failed _ = false

unfoldable pub is_pending : TaskStatus → Bool
is_pending pending = true
is_pending _ = false

unfoldable pub is_processing : TaskStatus → Bool
is_processing processing = true
is_processing _ = false

unfoldable pub is_done : TaskStatus → Bool
is_done done = true
is_done _ = false

-- `dedupKey = ?`: NULL equals nothing
unfoldable pub same_dedup : String × String → Option (String × String) → Bool
same_dedup key none = false
same_dedup (kind, key) (some (kind', key')) = kind' == kind && key' == key

-- The INSERT with its conflict clause, and whether RETURNING yields a row: a row with the key is
-- replaced if it is dead-lettered and kept otherwise.
unfoldable pub upsert : String × String → Task → List Task → List Task × Bool
unfolding same_dedup is_failed
upsert key new [] = (new ∷ [], true)
upsert key new (r ∷ rs) =
    let (rest, wrote) = upsert key new rs in
    if same_dedup key r.dedup_key
    then (if is_failed r.status then (new ∷ rs, true) else (r ∷ rs, false))
    else (r ∷ rest, wrote)

-- the SELECT of a dialect without RETURNING: does the row with the key carry the fresh id?
unfoldable pub owns : String × String → String → List Task → Bool
unfolding same_dedup
owns key fresh [] = false
owns key fresh (r ∷ rs) = if same_dedup key r.dedup_key then r.id == fresh else owns key fresh rs

unfoldable pub new_task : String → ℕ → EnqueueOpts → Option (String × String) → Task
unfolding delay
new_task fresh now opts key = record {
  id = fresh;
  kind = opts.kind;
  payload = opts.payload;
  status = pending;
  attempts = 0;
  run_at = now + delay opts.delay_ms;
  created_at = now;
  claimed_at = none;
  last_error = none;
  dedup_key = key;
}

-- `enqueueTask`, with the table it leaves and what it answers. `fresh` is the minted id and
-- `returning` tells whether the dialect surfaces RETURNING.
unfoldable pub enqueue_task :
    Bool → String → ℕ → EnqueueOpts → List Task → Result (List Task × Bool)
unfolding upsert owns new_task
enqueue_task returning fresh now opts table =
    if opts.kind == "" then err failure else elim opts.key [
      | none ↦ ok (table ++ new_task fresh now opts none ∷ [], true)
      | some key ↦
          if key == ""
          then err failure
          else (let (after, wrote) =
                upsert (opts.kind, key) (new_task fresh now opts (some (opts.kind, key))) table in
              ok (after, if returning then wrote else owns (opts.kind, key) fresh after))
    ]

unfoldable pub or_else : Option ℕ → ℕ → ℕ
or_else none n = n
or_else (some m) n = m

-- the DELETE that opens a drain
unfoldable pub prune : ℕ → List Task → List Task
unfolding keep is_done or_else
prune wall table =
    keep
      (λ (r : Task).
        not (is_done r.status && ltb (or_else r.claimed_at r.created_at + done_retention_ms) wall))
      table

-- is the claim older than STALE_MS? NULL is not
unfoldable pub is_stale : ℕ → Option ℕ → Bool
is_stale now none = false
is_stale now (some at) = leb (at + stale_ms) now

unfoldable pub is_claimable : ℕ → Task → Bool
unfolding is_pending is_processing is_stale
is_claimable now r =
    (is_pending r.status || (is_processing r.status && is_stale now r.claimed_at))
    && leb r.run_at now

-- `ORDER BY createdAt`, with ties in the table's order
unfoldable pub insert_by_age : Task → List Task → List Task
insert_by_age r [] = r ∷ []
insert_by_age r (x ∷ xs) =
    let rest = insert_by_age r xs in if leb r.created_at x.created_at then r ∷ x ∷ xs else x ∷ rest

unfoldable pub by_age : List Task → List Task
unfolding insert_by_age
by_age [] = []
by_age (r ∷ rs) = insert_by_age r (by_age rs)

unfoldable pub first_ids : ℕ → List Task → List String
first_ids zero rs = []
first_ids (suc n) [] = []
first_ids (suc n) (r ∷ rs) = r.id ∷ first_ids n rs

unfoldable pub mark : ℕ → List String → List Task → List Task
unfolding contains
mark now ids [] = []
mark now ids (r ∷ rs) =
    let rest = mark now ids rs in
    if contains r.id ids
    then record r { status = processing; claimed_at = some now } ∷ rest
    else r ∷ rest

-- The atomic claim of a batch: the table it leaves and the rows it returns. The limit is
-- `Math.max(1, Math.trunc(limit))`.
unfoldable pub batch : ℕ → ℕ → List Task → List String
unfolding first_ids by_age keep is_claimable
batch now limit table = first_ids (max 1 limit) (by_age (keep (is_claimable now) table))

unfoldable pub claim : ℕ → ℕ → List Task → List Task × List Task
unfolding batch mark keep contains
claim now limit table =
    let ids = batch now limit table in
    let after = mark now ids table in (after, keep (λ (r : Task). contains r.id ids) after)

-- `UPDATE … WHERE id = ?`
unfoldable pub update_row : String → (Task → Task) → List Task → List Task
update_row id f [] = []
update_row id f (r ∷ rs) =
    let rest = update_row id f rs in if r.id == id then f r ∷ rest else r ∷ rest

unfoldable pub stamp : ℕ → Task → Task
stamp at r = record r { claimed_at = some at }

unfoldable pub succeed : ℕ → ℕ → Task → Task
succeed attempts at r = record r { status = done; attempts = attempts; claimed_at = some at }

-- the catch: back off, or dead-letter after the last attempt
unfoldable pub fail : ℕ → ℕ → String → Task → Task
unfolding backoff_ms
fail attempts now message r = record r {
  status = if leb max_attempts attempts then failed else pending;
  attempts = attempts;
  run_at = now + backoff_ms attempts;
  claimed_at = none;
  last_error = some message;
}

-- A pass over the claimed rows. `run` is the registered handler of a kind on a payload, an id and an
-- attempt: nothing, or the message it throws, cut to 500 characters; a missing handler throws too.
-- `clock` is the wall clock at the stamp and at the completion of a row.
module _ (run : String → String → String → ℕ → Option String) (clock : String → ℕ × ℕ)
    (now : ℕ) where
  unfoldable pub process : Task → List Task → List Task × Bool
  unfolding update_row stamp succeed fail
  process r table =
      let started = update_row r.id (stamp (clock r.id).0) table in
      elim (run r.kind r.payload r.id (suc r.attempts)) [
        | none ↦ (update_row r.id (succeed (suc r.attempts) (clock r.id).1) started, true)
        | some message ↦ (update_row r.id (fail (suc r.attempts) now message) started, false)
      ]

  -- with the counts `succeeded` and `failed`
  unfoldable pub process_all : List Task → List Task → List Task × (ℕ × ℕ)
  unfolding process
  process_all [] table = (table, (0, 0))
  process_all (r ∷ rs) table =
      let (after, succeeded) = process r table in
      let (last, (wins, losses)) = process_all rs after in
      if succeeded then (last, (suc wins, losses)) else (last, (wins, suc losses))

unfoldable pub sooner : Option ℕ → Option ℕ → Option ℕ
sooner none n = n
sooner m none = m
sooner (some a) (some b) = some (min a b)

-- `MIN(runAt)` of the pending rows, and `MIN(claimedAt)` of those in processing with STALE_MS added
unfoldable pub next_pending : List Task → Option ℕ
unfolding is_pending sooner
next_pending [] = none
next_pending (r ∷ rs) =
    if is_pending r.status then sooner (some r.run_at) (next_pending rs) else next_pending rs

unfoldable pub stale_at : Option ℕ → Option ℕ
stale_at none = none
stale_at (some at) = some (at + stale_ms)

unfoldable pub next_stale : List Task → Option ℕ
unfolding is_processing sooner stale_at
next_stale [] = none
next_stale (r ∷ rs) =
    if is_processing r.status then sooner (stale_at r.claimed_at) (next_stale rs) else next_stale rs

unfoldable pub next_run_at : List Task → Option ℕ
unfolding next_pending next_stale sooner
next_run_at table = sooner (next_pending table) (next_stale table)

unfoldable pub due : ℕ → List Task → List Task
unfolding keep is_pending
due now table = keep (λ (r : Task). is_pending r.status && leb r.run_at now) table

pub record DrainResult : Type 0 where
  pub processed : ℕ
  pub succeeded : ℕ
  pub failed : ℕ
  pub remaining : ℕ
  pub next_run_at : Option ℕ

unfoldable pub drain_outbox :
    (String → String → String → ℕ → Option String)
    → (String → ℕ × ℕ)
    → ℕ
    → ℕ
    → ℕ
    → List Task
    → List Task × DrainResult
unfolding prune claim process_all due next_run_at
drain_outbox run clock wall now limit table =
    let (held, claimed) = claim now limit (prune wall table) in
    let (last, (wins, losses)) = process_all run clock now claimed held in
    (
      last,
      record {
        processed = length claimed;
        succeeded = wins;
        failed = losses;
        remaining = length (due now last);
        next_run_at = next_run_at last;
      },
    )

-- `listTasks`: newest first, at most 500; a limit of 0 is the default
unfoldable pub list_limit : Option ℤ → ℕ
list_limit none = 100
list_limit (some (pos zero)) = 100
list_limit (some (pos n)) = min n 500
list_limit (some (negsuc n)) = 1
