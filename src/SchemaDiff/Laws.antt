-- ===== src/SchemaDiff/Laws.antt =====
-- A shape against itself, and what is reported as dropped.
use pramen.Base.{
  String, ◌≡◌, refl, Bool, true, false, ◌==◌, eq_iff, Option, none, some, List, [], ◌∷◌, lookup,
  keys, All, arith,
}
use pramen.Schema.Validate.{declared}
use pramen.SchemaDiff.{
  ColumnFingerprint, TableFingerprint, SchemaFingerprint, same_flag, same_default, same_modifiers,
  changed_column, column_changes, all_column_changes, dropped_columns, table_changes,
  all_table_changes, dropped_tables, diff_schema_fingerprint,
}

same_flag_refl : (b : Bool) → same_flag b b ≡ true
unfolding same_flag
same_flag_refl true = refl
same_flag_refl false = refl

same_default_refl : (d : Option String) → same_default d d ≡ true
unfolding same_default
same_default_refl none = refl
same_default_refl (some a) = ground (arith, eq_iff a a)

same_modifiers_refl : (c : ColumnFingerprint) → same_modifiers c c ≡ true
unfolding same_modifiers
same_modifiers_refl c =
    rw
      (
        same_flag_refl c.not_null,
        same_flag_refl c.unique,
        same_flag_refl c.primary_key,
        same_flag_refl c.generated,
        same_flag_refl c.hidden,
        same_default_refl c.default,
      )
      refl

module _ {ℓ} {V : Type ℓ} where
  -- every key that is listed is declared
  pub AllDeclared : List String → List (String × V) → Type 0
  AllDeclared ks obj = All (λ k. declared k obj ≡ true) ks

  weaken :
      (ks : List String) (k : String) (v : V) (obj : List (String × V))
      → AllDeclared ks obj
      → AllDeclared ks ((k, v) ∷ obj)
  unfolding AllDeclared declared lookup
  weaken [] k v obj h = tt
  weaken (x ∷ xs) k v obj (h, hs) = (ground arith, weaken xs k v obj hs)

  keys-AllDeclared : (obj : List (String × V)) → AllDeclared (keys obj) obj
  unfolding AllDeclared declared lookup keys
  keys-AllDeclared [] = tt
  keys-AllDeclared ((k, v) ∷ rest) =
      (ground (arith, eq_iff k k), weaken (keys rest) k v rest (keys-AllDeclared rest))

module _ (table : String) where
  column_changes_refl :
      (c : String) (col : Option ColumnFingerprint)
      → (elim col [ none ↦ false | some _ ↦ true ]) ≡ true
      → column_changes table c col col ≡ []
  unfolding column_changes changed_column
  column_changes_refl c none h = cc
  column_changes_refl c (some col) h =
      ground (arith, same_modifiers_refl col, eq_iff col.type col.type)

  all_column_changes_refl :
      (cs : List String) (obj : List (String × ColumnFingerprint))
      → AllDeclared cs obj
      → all_column_changes table cs obj obj ≡ []
  unfolding all_column_changes AllDeclared declared
  all_column_changes_refl [] obj h = refl
  all_column_changes_refl (c ∷ cs) obj (h, hs) =
      rw (column_changes_refl c (lookup c obj) h) (all_column_changes_refl cs obj hs)

  dropped_columns-none :
      (cs : List String) (obj : List (String × ColumnFingerprint))
      → AllDeclared cs obj
      → dropped_columns table cs obj ≡ []
  unfolding dropped_columns AllDeclared
  dropped_columns-none [] obj h = refl
  dropped_columns-none (c ∷ cs) obj (h, hs) = rw h (dropped_columns-none cs obj hs)

  table_changes_refl :
      (t : Option TableFingerprint)
      → (elim t [ none ↦ false | some _ ↦ true ]) ≡ true
      → table_changes table t t ≡ []
  unfolding table_changes
  table_changes_refl none h = cc
  table_changes_refl (some t) h =
      rw
        (
          eq_same t.partition,
          all_column_changes_refl (keys t.columns) t.columns (keys-AllDeclared t.columns),
          dropped_columns-none (keys t.columns) t.columns (keys-AllDeclared t.columns),
        )
        refl
    where
      eq_same : (s : String) → (s == s) ≡ true
      eq_same s = ground (arith, eq_iff s s)

all_table_changes_refl :
    (ts : List String) (shape : SchemaFingerprint)
    → AllDeclared ts shape
    → all_table_changes ts shape shape ≡ []
unfolding all_table_changes AllDeclared declared
all_table_changes_refl [] shape h = refl
all_table_changes_refl (t ∷ ts) shape (h, hs) =
    rw (table_changes_refl t (lookup t shape) h) (all_table_changes_refl ts shape hs)

dropped_tables-none :
    (ts : List String) (shape : SchemaFingerprint)
    → AllDeclared ts shape
    → dropped_tables ts shape ≡ []
unfolding dropped_tables AllDeclared
dropped_tables-none [] shape h = refl
dropped_tables-none (t ∷ ts) shape (h, hs) = rw h (dropped_tables-none ts shape hs)

-- A shape does not differ from itself: the diff reports nothing.
pub diff_schema_fingerprint_refl :
    (shape : SchemaFingerprint) → diff_schema_fingerprint shape shape ≡ []
unfolding diff_schema_fingerprint
diff_schema_fingerprint_refl shape =
    rw
      (
        all_table_changes_refl (keys shape) shape (keys-AllDeclared shape),
        dropped_tables-none (keys shape) shape (keys-AllDeclared shape),
      )
      refl
