-- ===== src/Db/Steps.antt =====
-- Runs of a `Db` that leave the stored tables as they are, and how runs compose.
use pramen.Base.{
  String, ◌≡◌, refl, sym, ap, subst, ◌∙◌, Bool, true, ◌&&◌, Option, none, List, [], ◌∷◌, Action,
  Result, ok, err, inl, inr, guard, guard-ok, ok-injective, Bool-cases, acl_denied,
}
use pramen.Schema.{TriggerDef, TriggerOp, trigger_fires}
use pramen.Cell.{Row}
use pramen.Acl.Merge.{Scope}
use pramen.Outbox.{Task}
use pramen.Db.{Database, Env, Store, Run, after, touch, in_partition, scope_for}
use pramen.Db.Read.{enter}
use pramen.Db.Triggers.{is_changed, enqueue_trigger, fire_all, fire_triggers}

module _ {A B : Type 0} where
  -- What follows a run, as the first part ended.
  pub then_cases :
      (P : Store → Type 0) (r : Result A × Store) (k : A → Run B)
      → ((e : _) (s : Store) → r ≡ (err e, s) → P s)
      → ((a : A) (s : Store) → r ≡ (ok a, s) → P (k a s).1)
      → P (after r k).1
  then_cases P (ok a, s) k failed went = went a s refl
  then_cases P (err e, s) k failed went = failed e s refl

  pub after-ok :
      (r : Result A × Store) (k : A → Run B) (b : B) (s' : Store)
      → after r k ≡ (ok b, s')
      → (a : A) × (s : Store) × (r ≡ (ok a, s)) × (k a s ≡ (ok b, s'))
  after-ok (ok a, s) k b s' h = (a, s, refl, h)
  after-ok (err e, s) k b s' h = cc

  -- the same, where the first part only checks or computes
  pub lift-ok :
      (m : Result A) (s : Store) (k : A → Run B) (b : B) (s' : Store)
      → after (m, s) k ≡ (ok b, s')
      → (a : A) × (m ≡ ok a) × (k a s ≡ (ok b, s'))
  lift-ok (ok a) s k b s' h = (a, refl, h)
  lift-ok (err e) s k b s' h = cc

-- A part that leaves the tables, followed by one that does.
pub then_keeps :
    {A B : Type 0} {db : Database} (r : Result A × Store) (k : A → Run B)
    → r.1.tables ≡ db
    → ((a : A) (s : Store) → s.tables ≡ db → (k a s).1.tables ≡ db)
    → (after r k).1.tables ≡ db
then_keeps (ok a, s) k h hs = hs a s h
then_keeps (err e, s) k h hs = h

module _ (env : Env) where
  pub enter-keeps :
      (from : String) (action : Action) (s : Store) → (enter env from action s).1.tables ≡ s.tables
  unfolding enter touch
  enter-keeps from action s =
      then_keeps (in_partition env from, touch from s) _ refl
        λ _ s1 h1.
          then_keeps (scope_for env from action, s1) _ h1
            λ scope s2 h2.
              then_keeps (guard scope.allowed (acl_denied from action none), s2) _ h2 λ _ s3 h3. h3

  -- the opening of an operation that goes through
  pub enter-ok :
      (from : String) (action : Action) (s s' : Store) (scope : Scope)
      → enter env from action s ≡ (ok scope, s')
      → (s' ≡ touch from s)
        × (in_partition env from ≡ ok tt)
        × (scope_for env from action ≡ ok scope)
        × (scope.allowed ≡ true)
  unfolding enter
  enter-ok from action s s' scope h =
      let (_, e1, k1) = lift-ok (in_partition env from) (touch from s) _ scope s' h in
      let (sc, e2, k2) = lift-ok (scope_for env from action) (touch from s) _ scope s' k1 in
      let (_, e3, k3) =
        lift-ok (guard sc.allowed (acl_denied from action none)) (touch from s) _ scope s' k2 in
      let same = ap (λ r. r.0) k3 in
      (
        sym (ap (λ r. r.1) k3),
        e1,
        e2 ∙ same,
        subst (λ x. x.allowed ≡ true) (ok-injective same) (guard-ok sc.allowed _ e3),
      )

  enqueued_keeps :
      (m : Result (List Task × Bool)) (s : Store) (k : List Task → Store) (n : Store)
      → ((o : List Task) → (k o).tables ≡ s.tables)
      → n.tables ≡ s.tables
      → (elim m as (λ _. Result (Unit {0}) × Store) [
        | err e ↦ (err e, n)
        | ok (o, w) ↦ (ok tt, k o)
      ]).1.tables
        ≡ s.tables
  enqueued_keeps (ok (o, w)) s k n h g = h o
  enqueued_keeps (err e) s k n h g = g

  enqueue_trigger-keeps :
      (entity : String) (op : TriggerOp) (row : Row) (t : TriggerDef) (s : Store)
      → (enqueue_trigger env entity op row t s).1.tables ≡ s.tables
  unfolding enqueue_trigger
  enqueue_trigger-keeps entity op row t s = enqueued_keeps _ s _ _ (λ o. refl) refl

  fire_all-keeps :
      (entity : String) (op : TriggerOp) (row : Row) (written : List String) (old : Option Row)
      (ts : List TriggerDef) (s : Store)
      → (fire_all env entity op row written old ts s).1.tables ≡ s.tables
  unfolding fire_all
  fire_all-keeps entity op row written old [] s = refl
  fire_all-keeps entity op row written old (t ∷ ts) s =
      elim (Bool-cases
        (trigger_fires t op written && is_changed env t.on_update op written old row)) [
          | inl e ↦ rw e (
              then_keeps (enqueue_trigger env entity op row t s) _
                (enqueue_trigger-keeps entity op row t s)
                λ _ s1 h. fire_all-keeps entity op row written old ts s1 ∙ h)
          | inr e ↦ rw e (fire_all-keeps entity op row written old ts s)
        ]

  -- triggers write to the outbox only
  pub fire_triggers-keeps :
      (entity : String) (op : TriggerOp) (row : Row) (written : List String) (old : Option Row)
      (s : Store)
      → (fire_triggers env entity op row written old s).1.tables ≡ s.tables
  unfolding fire_triggers
  fire_triggers-keeps entity op row written old s = elim (Bool-cases env.suppress_triggers) [
    | inl e ↦ rw e refl
    | inr e ↦ rw e (fire_all-keeps entity op row written old _ s)
  ]
