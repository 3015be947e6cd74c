-- ===== src/Migrations/Valid.antt =====
-- What `validateMigrations` promises of the migrations it accepts.
use pramen.Base.{
  String, ◌≡◌, refl, true, false, not, ◌==◌, eq_iff, List, [], ◌∷◌, contains, contains-add, add, ok,
  failure, guard, guard-ok, >>-ok, not-eq-true, arith,
}
use pramen.Schema.{SchemaDef, default_partition, partitions_of}
use pramen.Migrations.{DataMigration, known_partition, validate_from, validate_migrations}

module _ {D : Type 0} where
  unfoldable pub ids : List (DataMigration D) → List String
  ids [] = []
  ids (m ∷ ms) = m.id ∷ ids ms

  -- No id comes twice, none is empty, and each partition is known.
  abbrev pub AreValid : List String → List (DataMigration D) → Type 0
  AreValid known [] = Unit
  AreValid known (m ∷ ms) =
      ((m.id == "") ≡ false)
      × (contains m.id (ids ms) ≡ false)
      × (known_partition known m.partition ≡ true)
      × AreValid known ms

  -- an id that was seen does not come again
  contains-ids :
      (known : List String) (f : String) (ms : List (DataMigration D)) (seen : List String)
      → validate_from known ms seen ≡ ok tt
      → contains f seen ≡ true
      → contains f (ids ms) ≡ false
  unfolding validate_from ids contains
  contains-ids known f [] seen h c = refl
  contains-ids known f (m ∷ ms) seen h c =
      let (a, h1) = >>-ok (guard (not (m.id == "")) failure) _ h in
      let (b, h2) = >>-ok (guard (not (contains m.id seen)) failure) _ h1 in
      let (_, h3) = >>-ok (guard (known_partition known m.partition) failure) _ h2 in
      let unseen =
        not-eq-true (contains m.id seen) (guard-ok (not (contains m.id seen)) failure b) in
      ground
        (arith, contains-ids known f ms (add m.id seen) h3, contains-add f m.id seen, eq_iff m.id f)

  validate_from-AreValid :
      (known : List String) (ms : List (DataMigration D)) (seen : List String)
      → validate_from known ms seen ≡ ok tt
      → AreValid known ms
  unfolding validate_from
  validate_from-AreValid known [] seen h = tt
  validate_from-AreValid known (m ∷ ms) seen h =
      let (a, h1) = >>-ok (guard (not (m.id == "")) failure) _ h in
      let (b, h2) = >>-ok (guard (not (contains m.id seen)) failure) _ h1 in
      let (c, h3) = >>-ok (guard (known_partition known m.partition) failure) _ h2 in
      (
        not-eq-true (m.id == "") (guard-ok (not (m.id == "")) failure a),
        contains-ids known m.id ms (add m.id seen) h3
            (ground (arith, contains-add m.id m.id seen, eq_iff m.id m.id)),
        guard-ok (known_partition known m.partition) failure c,
        validate_from-AreValid known ms (add m.id seen) h3,
      )

-- The migrations that validation accepts have ids that are not empty and not repeated, and each runs
-- in the default partition or in one of the schema's.
pub validate_migrations-AreValid :
    {D : Type 0} (schema : SchemaDef) (ms : List (DataMigration D))
    → validate_migrations schema ms ≡ ok tt
    → AreValid (add default_partition (partitions_of schema)) ms
unfolding validate_migrations
validate_migrations-AreValid schema ms h =
    validate_from-AreValid (add default_partition (partitions_of schema)) ms [] h
