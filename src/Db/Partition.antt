-- ===== src/Db/Partition.antt =====
-- A `Db` of one partition does not serve the tables of another (`assertInPartition` of runtime/db.ts).
use pramen.Base.{
  String, ◌≡◌, refl, false, ◌==◌, Option, some, List, Action, read, create, update, delete, err,
  bad_request,
}
use pramen.Cell.{Cell, Row}
use pramen.Schema.{partition_of}
use pramen.Where.{WhereRule}
use pramen.Db.{Env, Store, Aggregation, touch, in_partition}
use pramen.Db.Read.{enter}
use pramen.Db.Queries.{FindSpec, PageSpec, find, page, count, aggregate}
use pramen.Db.Insert.{insert}
use pramen.Db.Update.{update_row, delete_row}

module _ (env : Env) (table self : String) (s : Store) where
  enter-partition :
      (action : Action)
      → env.partition ≡ some self
      → (partition_of env.acl.schema table == self) ≡ false
      → enter env table action s ≡ (err bad_request, touch table s)
  unfolding enter in_partition touch
  enter-partition action p other = rw (p, other) refl

  -- Every operation on a table of another partition than the object's own ends in a bad request, whatever the
  -- caller may do, and only notes that the table was touched.
  pub operations-in_partition :
      (reads : FindSpec) (pages : PageSpec) (w : Option WhereRule) (group : List String)
      (aggregations : List (String × Aggregation)) (values : Row) (id : Cell)
      → env.partition ≡ some self
      → (partition_of env.acl.schema table == self) ≡ false
      → (find env (record reads { from = table }) s ≡ (err bad_request, touch table s))
        × (page env (record pages { from = table }) s ≡ (err bad_request, touch table s))
        × (count env table w s ≡ (err bad_request, touch table s))
        × (aggregate env table w group aggregations s ≡ (err bad_request, touch table s))
        × (insert env table values s ≡ (err bad_request, touch table s))
        × (update_row env table id values s ≡ (err bad_request, touch table s))
        × (delete_row env table id s ≡ (err bad_request, touch table s))
  unfolding find page count aggregate insert update_row delete_row
  operations-in_partition reads pages w group aggregations values id p other = (
    rw (enter-partition read p other) refl,
    rw (enter-partition read p other) refl,
    rw (enter-partition read p other) refl,
    rw (enter-partition read p other) refl,
    rw (enter-partition create p other) refl,
    rw (enter-partition update p other) refl,
    rw (enter-partition delete p other) refl,
  )
