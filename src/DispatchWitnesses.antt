-- ===== src/DispatchWitnesses.antt =====
-- The theorem on dispatch at a concrete input: a mutation that inserts a post and then throws.
use pramen.Base.{
  String, ◌≡◌, refl, sym, ap, none, some, List, [], ◌∷◌, Result, ok, err, conflict, Error, lookup,
}
use pramen.Cell.{text}
use pramen.Where.{Json, plain}
use pramen.Db.{Store, Run, lift, ◌>>=◌}
use pramen.Db.Insert.{insert}
use pramen.Dispatch.{Handler, query, mutation, authenticated, dispatch}
use pramen.Dispatch.Atomic.{RollsBack, dispatch-Restored}
use pramen.DbSamples.{env, store}
use pramen.DbWitnesses.{new_post}

-- a transaction that gives back the store as it was where its run throws
unfoldable ended : Store → Result Json × Store → Result Json × Store
ended s (ok a, s') = (ok a, s')
ended s (err e, s') = (err e, s)

unfoldable transaction : Run Json → Run Json
unfolding ended
transaction run s = ended s (run s)

ended-err : (r : Result Json × Store) (s s' : Store) (e : Error) → ended s r ≡ (err e, s') → s' ≡ s
unfolding ended
ended-err (ok a, t) s s' e h = let ends : ok a ≡ err e = ap (λ r. r.0) h in cc
ended-err (err x, t) s s' e h = sym (ap (λ r. r.1) h)

transaction-RollsBack : RollsBack transaction
unfolding transaction
transaction-RollsBack = record {
  restores = λ run s s' e h.
      let same = ended-err (run s) s s' e h in (ap (λ t. t.tables) same, ap (λ t. t.outbox) same);
}

abbrev save : Handler
save = record {
  kind = mutation;
  auth = none;
  input = none;
  run = λ env input. insert env "post" new_post >>= λ row. lift (err conflict);
}

abbrev handlers : List (String × Handler)
handlers = ("save", save) ∷ []

abbrev request : Result pramen.Dispatch.DispatchResult × Store
request =
    dispatch (λ id identity. err conflict) transaction env handlers "save" (plain (text "")) store

all_mutate : (h : Handler) → lookup "save" handlers ≡ some h → h.kind ≡ mutation
unfolding lookup
all_mutate h found =
    ap (λ o. elim o as (λ _. pramen.Dispatch.HandlerKind) [ none ↦ mutation | some x ↦ x.kind ])
      (sym found)

dispatch-Restored_example : (request.1.tables ≡ store.tables) × (request.1.outbox ≡ store.outbox)
unfolding dispatch insert transaction pramen.Acl.Fields.admit_flags pramen.DbSamples.bound
dispatch-Restored_example =
    dispatch-Restored (λ id identity. err conflict) transaction env handlers "save"
      (plain (text "")) store request.1 conflict transaction-RollsBack all_mutate refl
