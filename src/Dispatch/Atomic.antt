-- ===== src/Dispatch/Atomic.antt =====
-- A mutation that throws leaves nothing behind (runtime/dispatch.ts).
use pramen.Base.{
  String, ◌≡◌, refl, sym, ap, some, List, Result, ok, err, forbidden, guard, Error, lookup, subst,
  ◌⊎◌, bad_request, Option-cases, inl, inr,
}
use pramen.Where.{Json}
use pramen.Acl.Policies.{Resolvers}
use pramen.Db.{Env, Store, Run, after}
use pramen.Dispatch.{
  Handler, mutation, is_authorized, parsed_input, fresh, request_env, run_as, result_of,
  run_handler, dispatch,
}

-- A transaction rolls back the tables and the outbox of a run that throws.
pub record RollsBack (transaction : Run Json → Run Json) : Type 0 where
  pub restores :
      (run : Run Json) (s s' : Store) (e : Error)
      → transaction run s ≡ (err e, s')
      → (s'.tables ≡ s.tables) × (s'.outbox ≡ s.outbox)

-- the tables and the outbox are as they were
unfoldable Restored : Store → Store → Type 0
Restored s s' = (s'.tables ≡ s.tables) × (s'.outbox ≡ s.outbox)

module _ {A B : Type 0} where
  -- a chain fails in its first part or after it
  after-err :
      (r : Result A × Store) (k : A → Run B) (e : Error) (s' : Store)
      → after r k ≡ (err e, s')
      → ((x : Error) × (r ≡ (err x, s')))
        ⊎ ((a : A) × (s : Store) × (r ≡ (ok a, s)) × (k a s ≡ (err e, s')))
  after-err (ok a, s) k e s' h = inr (a, s, refl, h)
  after-err (err x, s) k e s' h = inl (x, ap (λ t. (err x, t)) (ap (λ r. r.1) h))

  -- the same, where the first part only checks
  lift-err :
      (m : Result A) (s : Store) (k : A → Run B) (e : Error) (s' : Store)
      → after (m, s) k ≡ (err e, s')
      → (s' ≡ s) ⊎ ((a : A) × (k a s ≡ (err e, s')))
  lift-err (ok a) s k e s' h = inr (a, h)
  lift-err (err x) s k e s' h = inl (sym (ap (λ r. r.1) h))

unchanged-Restored : (s s' : Store) → s' ≡ s → Restored s s'
unfolding Restored
unchanged-Restored s s' h = (ap (λ t. t.tables) h, ap (λ t. t.outbox) h)

module _ (resolvers : Resolvers) (transaction : Run Json → Run Json) (env : Env) where
  run_handler-Restored :
      (h : Handler) (input : Json) (s s' : Store) (e : Error)
      → RollsBack transaction
      → h.kind ≡ mutation
      → run_handler resolvers transaction env h input s ≡ (err e, s')
      → Restored s s'
  unfolding run_handler Restored run_as result_of
  run_handler-Restored h input s s' e law kind q =
      elim (lift-err (guard (is_authorized h.auth env.acl.identity) forbidden) s _ e s' q) [
        | inl same ↦ unchanged-Restored s s' same
        | inr (_, q1) ↦ elim (lift-err (parsed_input h.input input) s _ e s' q1) [
          | inl same ↦ unchanged-Restored s s' same
          | inr (parsed, q2) ↦
              let run = h.run (request_env resolvers transaction env parsed) parsed in
              elim (after-err (run_as resolvers transaction env h.kind run s) _ e s' q2) [
                | inl (x, threw) ↦
                    law.restores run s s' x (
                      subst (λ k. run_as resolvers transaction env k run s ≡ (err x, s')) kind
                        threw)
                | inr (a, t, went, q3) ↦ let ends : ok _ ≡ err e = ap (λ r. r.0) q3 in cc
              ]
        ]
      ]

  -- A request that names no handler, or names a mutation, and that ends in an error leaves the stored tables
  -- and the outbox as they were, where the driver's transaction rolls both back when its run throws.
  pub dispatch-Restored :
      (handlers : List (String × Handler)) (name : String) (input : Json) (s s' : Store) (e : Error)
      → RollsBack transaction
      → ((h : Handler) → lookup name handlers ≡ some h → h.kind ≡ mutation)
      → dispatch resolvers transaction env handlers name input s ≡ (err e, s')
      → (s'.tables ≡ s.tables) × (s'.outbox ≡ s.outbox)
  unfolding dispatch Restored fresh
  dispatch-Restored handlers name input s s' e law mutates q =
      elim (Option-cases (lookup name handlers)) [
        | inl f ↦
            let ends : (err bad_request, s) ≡ (err e, s') = rw (dispatch, f) at q in
            unchanged-Restored s s' (sym (ap (λ r. r.1) ends))
        | inr (h, f) ↦
            run_handler-Restored h input (fresh s) s' e law (mutates h f) (rw (dispatch, f) at q)
      ]
