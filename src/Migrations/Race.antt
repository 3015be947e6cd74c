-- ===== src/Migrations/Race.antt =====
-- Runners that race for one migration: on D1 nothing serializes them but the ledger.
use pramen.Base.{
  ℕ, suc, ◌+◌, ◌<◌, ◌≤◌, String, ◌≡◌, refl, sym, subst, ◌∙◌, true, false, List, [], ◌∷◌, length,
  All, arith,
}
use pramen.Migrations.{Ledger, find_row, claim_row, complete, release}
use pramen.Migrations.Claim.{
  Status, absent, done, leased, status, status_of, is_free, IsKeyed, claim_row-is_free,
  status-claim_row, status-complete, claim_row-IsKeyed, complete-IsKeyed, release-IsKeyed,
}

-- `running` are the runners inside `up`, each by the end of the lease it took; `finished` counts the
-- times that `up` ran to its end and was recorded.
pub record Race : Type 0 where
  pub clock : ℕ
  pub ledger : Ledger
  pub running : List ℕ
  pub finished : ℕ

module _ (id partition : String) (ttl : ℕ) where
  -- One statement of some runner, or time. Time may pass while every runner is within its lease: the
  -- lease exceeds the slowest migration.
  pub data Step (s : Race) : Race → Type 0 where
    tick :
        (n : ℕ)
        → All (λ until. s.clock + n < until) s.running
        → Step s (record s { clock = s.clock + n })
    win :
        (claim_row id partition s.clock ttl s.ledger).1 ≡ true
        → Step s (record s {
          ledger = (claim_row id partition s.clock ttl s.ledger).0;
          running = (s.clock + ttl) ∷ s.running;
        })
    lose :
        (claim_row id partition s.clock ttl s.ledger).1 ≡ false
        → Step s (record s { ledger = (claim_row id partition s.clock ttl s.ledger).0 })
    finish :
        (until : ℕ) (rest : List ℕ)
        → s.running ≡ until ∷ rest
        → Step s (record s {
          ledger = complete id partition s.clock s.ledger;
          running = rest;
          finished = suc s.finished;
        })
    throw :
        (until : ℕ) (rest : List ℕ)
        → s.running ≡ until ∷ rest
        → Step s (record s { ledger = release id partition s.ledger; running = rest })
    -- an isolate that is evicted releases nothing
    crash :
        (until : ℕ) (rest : List ℕ)
        → s.running ≡ until ∷ rest
        → Step s (record s { running = rest })

  pub data Reach (s : Race) : Race → Type 0 where
    here : Reach s s
    next : {t u : Race} → Reach s t → Step t u → Reach s u

  -- Who runs holds a live lease, and what has finished is applied.
  abbrev pub Holds : List ℕ → Status → ℕ → ℕ → Type 0
  Holds [] st clock finished = (finished ≤ 1) × (0 < finished → st ≡ done)
  Holds (until ∷ []) st clock finished = (st ≡ leased until) × (clock < until) × (finished ≡ 0)
  Holds (until ∷ until' ∷ rest) st clock finished = ⊥

  Holds-tick :
      (running : List ℕ) (st : Status) (clock n finished : ℕ)
      → All (λ until. clock + n < until) running
      → Holds running st clock finished
      → Holds running st (clock + n) finished
  Holds-tick [] st clock n finished within h = h
  Holds-tick (until ∷ []) st clock n finished (later, _) (e, _, z) = (e, later, z)
  Holds-tick (until ∷ until' ∷ rest) st clock n finished within h = h

  Holds-win :
      (running : List ℕ) (st : Status) (clock finished : ℕ)
      → 0 < ttl
      → is_free st clock ≡ true
      → Holds running st clock finished
      → Holds ((clock + ttl) ∷ running) (leased (clock + ttl)) clock finished
  unfolding is_free
  Holds-win [] st clock finished p free (le, d) = (refl, ground arith, ground arith)
  Holds-win (until ∷ []) st clock finished p free (e, live, z) = ground arith
  Holds-win (until ∷ until' ∷ rest) st clock finished p free h = h

  Holds-finish :
      (until : ℕ) (rest : List ℕ) (st : Status) (clock finished : ℕ)
      → Holds (until ∷ rest) st clock finished
      → Holds rest (elim st [ absent ↦ absent | _ ↦ done ]) clock (suc finished)
  Holds-finish until [] st clock finished (e, live, z) = ground arith
  Holds-finish until (until' ∷ rest) st clock finished h = absurd h

  Holds-leave :
      (until : ℕ) (rest : List ℕ) (st st' : Status) (clock finished : ℕ)
      → Holds (until ∷ rest) st clock finished
      → Holds rest st' clock finished
  Holds-leave until [] st st' clock finished (e, live, z) = ground arith
  Holds-leave until (until' ∷ rest) st st' clock finished h = absurd h

  pub record IsSound (s : Race) : Type 0 where
    pub keyed : IsKeyed s.ledger
    pub holds : Holds s.running (status id partition s.ledger) s.clock s.finished

  Step-IsSound : {s t : Race} → 0 < ttl → Step s t → IsSound s → IsSound t
  Step-IsSound {s} p (tick n within) h = record {
    keyed = h.keyed;
    holds = Holds-tick s.running (status id partition s.ledger) s.clock n s.finished within h.holds;
  }
  Step-IsSound {s} p (win free) h =
      let free' = sym (claim_row-is_free id partition s.clock ttl s.ledger) ∙ free in
      record {
        keyed = claim_row-IsKeyed id partition s.clock ttl s.ledger h.keyed;
        holds =
            rw (status-claim_row id partition s.clock ttl s.ledger, free')
              (Holds-win s.running (status id partition s.ledger) s.clock s.finished p free'
                h.holds);
      }
  Step-IsSound {s} p (lose taken) h =
      let taken' = sym (claim_row-is_free id partition s.clock ttl s.ledger) ∙ taken in
      record {
        keyed = claim_row-IsKeyed id partition s.clock ttl s.ledger h.keyed;
        holds = rw (status-claim_row id partition s.clock ttl s.ledger, taken') h.holds;
      }
  Step-IsSound {s} p (finish until rest e) h = record {
    keyed = complete-IsKeyed id partition s.clock s.ledger h.keyed;
    holds = rw (status-complete id partition s.clock s.ledger) (
        Holds-finish until rest (status id partition s.ledger) s.clock s.finished
          (subst (λ r. Holds r (status id partition s.ledger) s.clock s.finished) e h.holds));
  }
  Step-IsSound {s} p (throw until rest e) h = record {
    keyed = release-IsKeyed id partition s.ledger h.keyed;
    holds =
        Holds-leave until rest (status id partition s.ledger)
          (status id partition (release id partition s.ledger)) s.clock s.finished
          (subst (λ r. Holds r (status id partition s.ledger) s.clock s.finished) e h.holds);
  }
  Step-IsSound {s} p (crash until rest e) h = record {
    keyed = h.keyed;
    holds =
        Holds-leave until rest (status id partition s.ledger) (status id partition s.ledger) s.clock
          s.finished
          (subst (λ r. Holds r (status id partition s.ledger) s.clock s.finished) e h.holds);
  }

  Reach-IsSound : {s t : Race} → 0 < ttl → Reach s t → IsSound s → IsSound t
  Reach-IsSound p here h = h
  Reach-IsSound p (next r x) h = Step-IsSound p x (Reach-IsSound p r h)

  Holds-one :
      (running : List ℕ) (st : Status) (clock finished : ℕ)
      → Holds running st clock finished
      → (length running ≤ 1) × (finished ≤ 1)
  Holds-one [] st clock finished (le, d) = (ground arith, le)
  Holds-one (until ∷ []) st clock finished (e, live, z) = (ground arith, ground arith)
  Holds-one (until ∷ until' ∷ rest) st clock finished h = absurd h

-- A race before its first statement: an empty ledger and nobody running.
abbrev pub start : ℕ → Race
start clock = record { clock = clock; ledger = []; running = []; finished = 0 }

-- However the claims, completions, releases and crashes of the runners of one migration interleave
-- from an empty ledger, with leases of a positive length that no runner outlives, at most one runner
-- is inside `up` at a time and at most one run is completed.
pub run-at_most_once :
    (id partition : String) (ttl clock : ℕ) (t : Race)
    → 0 < ttl
    → Reach id partition ttl (start clock) t
    → (length t.running ≤ 1) × (t.finished ≤ 1)
unfolding status find_row status_of
run-at_most_once id partition ttl clock t p r =
    let sound =
      Reach-IsSound id partition ttl p r
        (record { keyed = tt; holds = (ground arith, λ h. ground arith) }) in
    Holds-one id partition ttl t.running (status id partition t.ledger) t.clock t.finished
      sound.holds
