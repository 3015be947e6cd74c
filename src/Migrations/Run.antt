-- ===== src/Migrations/Run.antt =====
-- A run of the migrations: what an attempt leaves in the ledger, and a run that has nothing to do.
use pramen.Base.{
  ℕ, ◌+◌, String, ◌≡◌, refl, sym, ◌∙◌, Bool, true, false, Option, none, some, List, [], ◌∷◌, Result,
  ok, err, arith,
}
use pramen.Migrations.{
  Ledger, try_claim, claim_row, ClaimOutcome, claimed, applied, held, acquire_until, acquire,
  LeaseOpts, Round, complete, DataMigration, owner, World, Visit, Ran, did, skipped, failed,
  waiting, work, attempt, abort,
}
use pramen.Migrations.Claim.{
  Status, absent, done, leased, status, is_free, status-claim_row, status-complete, outcome_at,
  try_claim-outcome,
}

-- is the status one that a run may complete?
unfoldable pub is_leased : Status → Bool
is_leased (leased until) = true
is_leased _ = false

module _ (id partition : String) where
  try_claim-ledger :
      (now ttl : ℕ) (ledger : Ledger)
      → (try_claim id partition now ttl ledger).0 ≡ (claim_row id partition now ttl ledger).0
  unfolding try_claim
  try_claim-ledger now ttl ledger = ground arith

  claimed-is_free : (st : Status) (now : ℕ) → outcome_at st now ≡ claimed → is_free st now ≡ true
  unfolding outcome_at is_free
  claimed-is_free absent now h = refl
  claimed-is_free done now h = cc
  claimed-is_free (leased until) now h = ground arith

  try_claim-claimed :
      (now ttl : ℕ) (ledger : Ledger)
      → (try_claim id partition now ttl ledger).1 ≡ claimed
      → status id partition (try_claim id partition now ttl ledger).0 ≡ leased (now + ttl)
  try_claim-claimed now ttl ledger h =
      let free =
        claimed-is_free (status id partition ledger) now
          (sym (try_claim-outcome id partition now ttl ledger) ∙ h) in
      rw (try_claim-ledger now ttl ledger, status-claim_row id partition now ttl ledger, free) refl

  acquire_until-claimed :
      (ttl deadline : ℕ) (rounds : List Round) (ledger after : Ledger)
      → acquire_until id partition ttl deadline rounds ledger ≡ some (ok claimed, after)
      → is_leased (status id partition after) ≡ true
  unfolding acquire_until is_leased
  acquire_until-claimed ttl deadline [] ledger after h = cc
  acquire_until-claimed ttl deadline (r ∷ rs) ledger after h = ground (
    arith,
    try_claim-claimed r.claim_at ttl (r.others ledger),
    acquire_until-claimed ttl deadline rs
        (try_claim id partition r.claim_at ttl (r.others ledger)).0 after,
  )

  complete-leased :
      (now : ℕ) (ledger : Ledger)
      → is_leased (status id partition ledger) ≡ true
      → status id partition (complete id partition now ledger) ≡ done
  unfolding is_leased
  complete-leased now ledger h = ground (arith, status-complete id partition now ledger)

module _ {D : Type 0} (rollback : Bool) (lease : LeaseOpts) where
  work-did :
      (m : DataMigration D) (partition : String) (at : ℕ) (before w w' : World D)
      → is_leased (status m.id partition w.ledger) ≡ true
      → work rollback lease m partition at before w ≡ did w'
      → status m.id partition w'.ledger ≡ done
  unfolding work
  work-did m partition at before w w' live h =
      ground (arith, complete-leased m.id partition at w.ledger live)

  -- the end of `attempt`, by what `acquire` gave
  unfoldable attempt_end :
      DataMigration D → Visit → World D → Option (Result ClaimOutcome × Ledger) → Ran D
  unfolding work owner abort
  attempt_end m v w got = elim got [
    | none ↦ waiting
    | some (err e, ledger) ↦ failed (abort rollback lease w (record w { ledger = ledger }))
    | some (ok claimed, ledger) ↦
        work rollback lease m (owner m.partition) v.completed_at w (record w { ledger = ledger })
    | some (ok _, ledger) ↦ skipped (record w { ledger = ledger })
  ]

  attempt_end-did :
      (m : DataMigration D) (v : Visit) (w w' : World D)
      (got : Option (Result ClaimOutcome × Ledger))
      → acquire m.id (owner m.partition) lease v.start v.rounds w.ledger ≡ got
      → attempt_end m v w got ≡ did w'
      → status m.id (owner m.partition) w'.ledger ≡ done
  unfolding attempt_end acquire
  attempt_end-did m v w w' none e h = cc
  attempt_end-did m v w w' (some (err x, ledger)) e h = cc
  attempt_end-did m v w w' (some (ok claimed, ledger)) e h =
      work-did m (owner m.partition) v.completed_at w (record w { ledger = ledger }) w'
        (acquire_until-claimed m.id (owner m.partition) lease.ttl (v.start + lease.wait) v.rounds
          w.ledger ledger e)
        h
  attempt_end-did m v w w' (some (ok applied, ledger)) e h = cc
  attempt_end-did m v w w' (some (ok held, ledger)) e h = cc

-- A migration that an attempt reports as run is applied in the ledger that the attempt leaves,
-- whatever the other runners did while it waited for the lease.
pub attempt-did :
    {D : Type 0} (rollback : Bool) (lease : LeaseOpts) (m : DataMigration D) (v : Visit)
    (w w' : World D)
    → attempt rollback lease m v w ≡ did w'
    → status m.id (owner m.partition) w'.ledger ≡ done
unfolding attempt attempt_end
attempt-did rollback lease m v w w' h =
    attempt_end-did rollback lease m v w w'
      (acquire m.id (owner m.partition) lease v.start v.rounds w.ledger) refl h
