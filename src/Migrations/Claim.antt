-- ===== src/Migrations/Claim.antt =====
-- What the statements on the ledger do to each row: the claim, its completion and its release.
use pramen.Base.{
  ℕ, ◌+◌, String, ◌≡◌, refl, sym, ap, ◌∙◌, inl, inr, Bool, true, false, ◌&&◌, ◌==◌, eq_iff, leb,
  Option, none, some, [], ◌∷◌, keep, if◌then◌else◌, arith, Bool-cases,
}
use pramen.Migrations.{
  LedgerRow, Ledger, is_row, find_row, expired, claim_row, complete, in_flight, release, try_claim,
  ClaimOutcome, claimed, applied, held, outcome_of,
}

-- The state of a migration in the ledger.
pub data Status : Type 0 where
  absent done : Status
  leased : ℕ → Status

unfoldable pub status_of : Option LedgerRow → Status
status_of none = absent
status_of (some r) = elim r.lease_until [ none ↦ done | some until ↦ leased until ]

unfoldable pub status : String → String → Ledger → Status
unfolding status_of find_row
status id partition ledger = status_of (find_row id partition ledger)

-- Is the migration free to be taken at `now`?
unfoldable pub is_free : Status → ℕ → Bool
is_free absent now = true
is_free done now = false
is_free (leased until) now = leb until now

-- the outcome that a status gives
unfoldable pub outcome_at : Status → ℕ → ClaimOutcome
outcome_at absent now = claimed
outcome_at done now = applied
outcome_at (leased until) now = if leb until now then claimed else held

-- At most one row to a key.
abbrev pub IsKeyed : Ledger → Type 0
IsKeyed [] = Unit
IsKeyed (r ∷ rs) = (find_row r.id r.partition rs ≡ none) × IsKeyed rs

module _ (id partition : String) where
  -- A claim writes exactly if the migration is free: not applied, and under no live lease.
  pub claim_row-is_free :
      (now ttl : ℕ) (ledger : Ledger)
      → (claim_row id partition now ttl ledger).1 ≡ is_free (status id partition ledger) now
  unfolding claim_row status is_free
  claim_row-is_free now ttl [] = refl
  claim_row-is_free now ttl (r ∷ rs) = ground (arith, claim_row-is_free now ttl rs)

  -- After a claim, a migration that was free is under a lease of the given length from now, and any
  -- other is in the state it was in.
  pub status-claim_row :
      (now ttl : ℕ) (ledger : Ledger)
      → status id partition (claim_row id partition now ttl ledger).0 ≡ (
          if is_free (status id partition ledger) now
          then leased (now + ttl)
          else status id partition ledger)
  unfolding claim_row status is_free
  status-claim_row now ttl [] = ground (arith, eq_iff id id, eq_iff partition partition)
  status-claim_row now ttl (r ∷ rs) = ground (arith, status-claim_row now ttl rs)

  pub status-complete :
      (now : ℕ) (ledger : Ledger)
      → status id partition (complete id partition now ledger)
        ≡ (elim (status id partition ledger) [ absent ↦ absent | _ ↦ done ])
  unfolding complete status
  status-complete now [] = refl
  status-complete now (r ∷ rs) = ground (arith, status-complete now rs)

  find_row-claim_row_ne :
      (j q : String) (now ttl : ℕ) (ledger : Ledger)
      → (id == j && partition == q) ≡ false
      → find_row j q (claim_row id partition now ttl ledger).0 ≡ find_row j q ledger
  unfolding claim_row find_row
  find_row-claim_row_ne j q now ttl [] h = ground arith
  find_row-claim_row_ne j q now ttl (r ∷ rs) h = ground (
    arith,
    find_row-claim_row_ne j q now ttl rs,
    eq_iff r.id id,
    eq_iff r.partition partition,
    eq_iff r.id j,
    eq_iff r.partition q,
    eq_iff id j,
    eq_iff partition q,
  )

  other_key :
      (r : LedgerRow)
      → is_row id partition r ≡ false
      → (id == r.id && partition == r.partition) ≡ false
  unfolding is_row
  other_key r h = ground (
    arith,
    eq_iff r.id id,
    eq_iff id r.id,
    eq_iff r.partition partition,
    eq_iff partition r.partition,
  )

  pub claim_row-IsKeyed :
      (now ttl : ℕ) (ledger : Ledger)
      → IsKeyed ledger
      → IsKeyed (claim_row id partition now ttl ledger).0
  unfolding claim_row find_row
  claim_row-IsKeyed now ttl [] k = ground arith
  claim_row-IsKeyed now ttl (r ∷ rs) (fresh, k) = elim (Bool-cases (is_row id partition r)) [
    | inl same ↦ elim (Bool-cases (expired r.lease_until now)) [
      | inl over ↦ rw (same, over) (fresh, k)
      | inr live ↦ rw (same, live) (fresh, k)
    ]
    | inr other ↦ rw other (
      find_row-claim_row_ne r.id r.partition now ttl rs (other_key r other) ∙ fresh,
      claim_row-IsKeyed now ttl rs k,
    )
  ]

  find_row-complete-none :
      (j q : String) (now : ℕ) (ledger : Ledger)
      → find_row j q ledger ≡ none
      → find_row j q (complete id partition now ledger) ≡ none
  unfolding complete find_row
  find_row-complete-none j q now [] h = refl
  find_row-complete-none j q now (r ∷ rs) h = ground (arith, find_row-complete-none j q now rs)

  pub complete-IsKeyed :
      (now : ℕ) (ledger : Ledger) → IsKeyed ledger → IsKeyed (complete id partition now ledger)
  unfolding complete
  complete-IsKeyed now [] k = tt
  complete-IsKeyed now (r ∷ rs) (fresh, k) = elim (Bool-cases (is_row id partition r)) [
    | inl same ↦
        rw same (find_row-complete-none r.id r.partition now rs fresh, complete-IsKeyed now rs k)
    | inr other ↦
        rw other (find_row-complete-none r.id r.partition now rs fresh, complete-IsKeyed now rs k)
  ]

  find_row-release-none :
      (j q : String) (ledger : Ledger)
      → find_row j q ledger ≡ none
      → find_row j q (release id partition ledger) ≡ none
  unfolding release keep find_row
  find_row-release-none j q [] h = refl
  find_row-release-none j q (r ∷ rs) h = ground (arith, find_row-release-none j q rs)

  pub release-IsKeyed : (ledger : Ledger) → IsKeyed ledger → IsKeyed (release id partition ledger)
  unfolding release keep
  release-IsKeyed [] k = tt
  release-IsKeyed (r ∷ rs) (fresh, k) =
      elim (Bool-cases (is_row id partition r && in_flight r.lease_until)) [
        | inl gone ↦ rw gone (release-IsKeyed rs k)
        | inr kept ↦ rw kept (find_row-release-none r.id r.partition rs fresh, release-IsKeyed rs k)
      ]

  -- In a ledger with one row to a key, a release frees the migration if it was leased, and leaves an
  -- applied one applied and a missing one missing.
  pub status-release :
      (ledger : Ledger)
      → IsKeyed ledger
      → status id partition (release id partition ledger) ≡ (elim (status id partition ledger) [
        | leased until ↦ absent
        | absent ↦ absent
        | done ↦ done
      ])
  unfolding release keep status find_row
  status-release [] k = refl
  status-release (r ∷ rs) (fresh, k) = ground (
    arith,
    status-release rs k,
    find_row-release-none id partition rs,
    eq_iff r.id id,
    eq_iff r.partition partition,
  )

  outcome-unfree :
      (ledger : Ledger) (now : ℕ)
      → is_free (status id partition ledger) now ≡ false
      → outcome_of (find_row id partition ledger) ≡ outcome_at (status id partition ledger) now
  unfolding outcome_of status outcome_at is_free
  outcome-unfree ledger now h = ground arith

  outcome_at-free : (st : Status) (now : ℕ) → is_free st now ≡ true → outcome_at st now ≡ claimed
  unfolding outcome_at is_free
  outcome_at-free st now h = ground arith

  status-taken :
      (now ttl : ℕ) (ledger : Ledger)
      → is_free (status id partition ledger) now ≡ false
      → status id partition (claim_row id partition now ttl ledger).0 ≡ status id partition ledger
  status-taken now ttl ledger h = status-claim_row now ttl ledger ∙ rw h refl

  -- What `tryClaim` reports is what the ledger says: "claimed" for a missing row or one whose lease
  -- is over, "applied" for an applied one, "held" for one under a live lease.
  pub try_claim-outcome :
      (now ttl : ℕ) (ledger : Ledger)
      → (try_claim id partition now ttl ledger).1 ≡ outcome_at (status id partition ledger) now
  unfolding try_claim
  try_claim-outcome now ttl ledger = elim (Bool-cases (is_free (status id partition ledger) now)) [
    | inl free ↦
        rw (claim_row-is_free now ttl ledger, free)
          (sym (outcome_at-free (status id partition ledger) now free))
    | inr taken ↦
        rw (claim_row-is_free now ttl ledger, taken)
          (outcome-unfree (claim_row id partition now ttl ledger).0 now
              (ap (λ st. is_free st now) (status-taken now ttl ledger taken) ∙ taken)
            ∙ ap (λ st. outcome_at st now) (status-taken now ttl ledger taken))
  ]
