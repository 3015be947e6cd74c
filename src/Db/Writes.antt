-- ===== src/Db/Writes.antt =====
-- What `insert` and `delete` of runtime/db.ts do to the stored tables.
use pramen.Base.{
  String, ◌≡◌, refl, sym, ap, subst, ◌∙◌, true, Option, none, some, List, [], Action, create,
  delete, keys, Result, ok, ◌⊎◌, inl, inr,
}
use pramen.Cell.{Cell, Row}
use pramen.Schema as Schema
use pramen.Acl.Merge.{Scope}
use pramen.Db.{
  touch, fields_of, Database, Env, Store, rows_of, in_partition, scope_for, encode_row, decode_row,
}
use pramen.Db.Read.{enter}
use pramen.Db.Values.{write_rules, fill_uuids, assign}
use pramen.Db.Triggers.{fire_triggers}
use pramen.Db.Insert.{authorize_insert, add_row, insert_row, insert_values, insert}
use pramen.Db.Update.{by_id, first_row, delete_rows, after_delete, delete_row}
use pramen.Db.Read.{matching}
use pramen.Acl.Policies.{put}
use pramen.Base.{Bool, false, List, ◌∷◌, any, keep, Bool-cases, ok-injective}
use pramen.Db.Selected.{
  Conjoins, Removes, is_referenced, picks, without, by_id-picks, without-same, any-same,
}
use pramen.Db.Authorized.{Passes, authorize_insert-Passes}
use pramen.Db.Minted.{given, Comes, fill_uuids-Comes}
use pramen.Base.{◌≢◌, ◌++◌, contains, lookup}
use pramen.Db.{Run}
use pramen.Db.Steps.{after-ok}
use pramen.Db.{after}
use pramen.Base.{err, failure}
use pramen.Db.Steps.{then_cases, then_keeps, enter-keeps, enter-ok, fire_triggers-keeps}

-- the store that an authorized delete leaves, and that an authorized insert leaves
module _ (env : Env) (table : String) where
  abbrev pub Opened : Action → Scope → Type 0
  Opened action scope =
      (in_partition env table ≡ ok tt)
      × (scope_for env table action ≡ ok scope)
      × (scope.allowed ≡ true)

  -- what an insert of these values makes of the tables
  unfoldable pub Inserts : Row → Database → Database → Type 0
  Inserts values db db' =
      (scope : Scope) × (vals : Row) × (generated : List String) × Opened create scope
      × ((c : String)
          → Comes env (fields_of env.acl.schema table) (contains c generated) c
              (given (write_rules env table create).set values c) (lookup c vals))
      × Passes env table db scope (write_rules env table create) generated vals
      × (db'
          ≡ put table
              (rows_of db table ++ env.engine.filled db table (encode_row env table vals) ∷ []) db)

pub tables_of :
    {A : Type 0} {r : Result A × Store} {a : Result A} {s : Store}
    → r ≡ (a, s)
    → s.tables ≡ r.1.tables
tables_of q = ap (λ r. r.1.tables) (sym q)

module _ (env : Env) (table : String) where
  after_delete-keeps :
      (deleted : Option Row) (s : Store) → (after_delete env table deleted s).1.tables ≡ s.tables
  unfolding after_delete
  after_delete-keeps none s = refl
  after_delete-keeps (some row) s =
      then_keeps (fire_triggers env table Schema.delete (decode_row env table row) [] none s) _
        (fire_triggers-keeps env table Schema.delete (decode_row env table row) [] none s)
        λ _ s1 h. h

  any-first_row :
      (p : Row → Bool) (rows : List Row)
      → (elim (first_row env table (keep p rows)) [ none ↦ false | some r ↦ true ]) ≡ any p rows
  unfolding first_row keep any
  any-first_row p [] = refl
  any-first_row p (r ∷ rs) = elim (Bool-cases (p r)) [
    | inl e ↦ rw e refl
    | inr e ↦ rw e (any-first_row p rs)
  ]

  after_delete-ok :
      (deleted : Option Row) (s s' : Store) (b : Bool)
      → after_delete env table deleted s ≡ (ok b, s')
      → (b ≡ (elim deleted [ none ↦ false | some r ↦ true ])) × (s'.tables ≡ s.tables)
  unfolding after_delete
  after_delete-ok none s s' b h = (sym (ok-injective (ap (λ r. r.0) h)), tables_of h)
  after_delete-ok (some row) s s' b h =
      let (_, t, f, k) =
        after-ok (fire_triggers env table Schema.delete (decode_row env table row) [] none s) _ b s'
          h in
      (
        sym (ok-injective (ap (λ r. r.0) k)),
        tables_of k
            ∙ tables_of f
            ∙ fire_triggers-keeps env table Schema.delete (decode_row env table row) [] none s,
      )

  removed_rows :
      (o : Option Database) (deleted : Option Row) (s s' : Store) (b : Bool) (db : Database)
      → o ≡ some db
      → after
          (elim o as (λ _. Result (Option Row) × Store) [
            | none ↦ (err failure, s)
            | some d ↦ (ok deleted, record s { tables = d })
          ])
          (λ d. after_delete env table d)
        ≡ (ok b, s')
      → after_delete env table deleted (record s { tables = db }) ≡ (ok b, s')
  removed_rows o deleted s s' b db e h =
      subst
        (λ o.
          after
            (elim o as (λ _. Result (Option Row) × Store) [
              | none ↦ (err failure, s)
              | some d ↦ (ok deleted, record s { tables = d })
            ])
            (λ d. after_delete env table d)
          ≡ (ok b, s'))
        e h

  -- Where a delete succeeds on a table that no foreign key refers to, on an engine whose AND selects what each
  -- part selects and whose DELETE then removes the rows that it selects: the table is of the object's
  -- partition, the caller may delete in it, the table loses exactly the rows whose primary key is the id
  -- and that the predicate of the delete scope selects, if it has one, no other table changes, and the
  -- answer is whether there was such a row.
  pub delete_row-within_scope :
      (id : Cell) (s s' : Store) (b : Bool)
      → Conjoins env.engine
      → Removes env.engine env.acl.schema
      → is_referenced env.acl.schema table ≡ false
      → delete_row env table id s ≡ (ok b, s')
      → (scope : Scope) × Opened env table delete scope
        × (s'.tables
            ≡ put table
                (without (picks env s.tables table id scope.where_ []) (rows_of s.tables table))
                s.tables)
        × (b ≡ any (picks env s.tables table id scope.where_ []) (rows_of s.tables table))
  unfolding delete_row delete_rows touch matching
  delete_row-within_scope id s s' b conj law free h =
      let (scope, s1, opened, h1) = after-ok (enter env table delete s) _ b s' h in
      let (touched, part, mine, allowed) = enter-ok env table delete s s1 scope opened in
      let e = by_id env table id scope.where_ [] in
      let same : (row : Row)
          → env.engine.matches s.tables table e row
            ≡ picks env s.tables table id scope.where_ [] row =
        by_id-picks env conj s.tables table id scope.where_ [] in
      let (answer, kept) = after_delete-ok _ _ s' b (
        removed_rows _ _ (touch table s) s' b _ (law.own_rows s.tables table e free) (
          subst
            (λ t. after (delete_rows env table e t) (λ d. after_delete env table d) ≡ (ok b, s'))
            touched h1)) in
      (
        scope,
        (part, mine, allowed),
        kept
            ∙ ap (λ rows. put table rows s.tables) (without-same _ _ (rows_of s.tables table) same),
        answer
            ∙ any-first_row (env.engine.matches s.tables table e) (rows_of s.tables table)
            ∙ any-same _ _ (rows_of s.tables table) same,
      )

  -- an INSERT appends the row that the engine stores, or fails and changes nothing
  insert_row-tables :
      (P : Database → Type 0) (vals : Row) (s : Store) (k : Row → Run Row)
      → P s.tables
      → P (
          add_row env s.tables table (env.engine.filled s.tables table (encode_row env table vals)))
      → ((row : Row) (t : Store) → (k row t).1.tables ≡ t.tables)
      → P (after (insert_row env table vals s) k).1.tables
  unfolding insert_row
  insert_row-tables P vals s k h g keeps =
      elim (Bool-cases (
        env.engine.accepts s.tables table (
          rows_of s.tables table
          ++ env.engine.filled s.tables table (encode_row env table vals) ∷ []))) [
            | inl e ↦ rw e (subst P (sym (keeps _ _)) g)
            | inr e ↦ rw e h
          ]

  insert-cases :
      (values : Row) (s : Store)
      → ((insert env table values s).1.tables ≡ s.tables)
        ⊎ Inserts env table values s.tables (insert env table values s).1.tables
  unfolding insert insert_values Inserts touch add_row
  insert-cases values s =
      then_cases (λ t. (t.tables ≡ s.tables) ⊎ Inserts env table values s.tables t.tables)
        (enter env table create s) _ (λ e t q. inl (tables_of q ∙ enter-keeps env table create s))
        λ scope t q.
          let (f, part, found, allowed) = enter-ok env table create s t scope q in
          let same = ap (λ x. x.tables) f in
          let (w, (generated, n)) =
            fill_uuids env (fields_of env.acl.schema table) t.minted
              (assign values (write_rules env table create).set) [] in
          then_cases (λ u. (u.tables ≡ s.tables) ⊎ Inserts env table values s.tables u.tables)
            (
              authorize_insert env t.tables table scope (write_rules env table create) generated w,
              record t { minted = n },
            )
            _ (λ e u q'. inl (tables_of q' ∙ same))
            λ _ u q'.
              let kept = tables_of q' ∙ same in
              insert_row-tables (λ db. (db ≡ s.tables) ⊎ Inserts env table values s.tables db) w u _
                (inl kept)
                (inr (
                  scope,
                  w,
                  generated,
                  (part, found, allowed),
                  fill_uuids-Comes env (fields_of env.acl.schema table) t.minted
                      (write_rules env table create).set values,
                  authorize_insert-Passes env table s.tables scope (write_rules env table create)
                      generated w
                      (subst
                        (λ db.
                          authorize_insert env db table scope (write_rules env table create)
                            generated w
                          ≡ ok tt)
                        same (ap (λ r. r.0) q')),
                  ap
                      (λ db.
                        add_row env db table (env.engine.filled db table (encode_row env table w)))
                      kept,
                ))
                λ row v.
                  then_keeps (fire_triggers env table Schema.create row (keys w) none v) _
                    (fire_triggers-keeps env table Schema.create row (keys w) none v) λ _ s1 h1. h1

  -- An insert that changes the stored tables, whether it ends in a row or in an error of a trigger: the table
  -- is of the object's partition, and the caller may create in it. Each column of the values has what the
  -- policies force on it, or the caller gives where they force nothing, unless it is a uuid field that is
  -- generated, has no value so, and gets one that the server mints. The create scope has no predicate and
  -- no grants, or its predicate holds of the values with the defaults; each column is forced, minted, or
  -- among the fields of the scope for this row; each validator accepts the values, and each uuid among them
  -- is well-formed. The table gains exactly the row that the engine stores for them.
  pub insert-authorized :
      (values : Row) (s : Store)
      → (insert env table values s).1.tables ≢ s.tables
      → Inserts env table values s.tables (insert env table values s).1.tables
  insert-authorized values s changes = elim (insert-cases values s) [
    | inl same ↦ absurd (changes same)
    | inr done ↦ done
  ]
