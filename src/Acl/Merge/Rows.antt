-- ===== src/Acl/Merge/Rows.antt =====
-- What one grant means, independently of the merge: the rows that it admits and the fields that
-- it gives on such a row. `stored` is the stored row (the pre-image of an update), `row` the row
-- that is shown or written.
use pramen.Base.{String, Bool, true, ◌&&◌, ◌||◌, Option, none, some, List, any, contains}
use pramen.Cell.{Row, Host}
use pramen.Expr.{SqlExpr}
use pramen.Expr.Meaning.{Linked, holds}
use pramen.Acl.{Identity, FieldsFn}
use pramen.Acl.Merge.{Grant, ConditionalGrant}

-- Is the field among those shown? `none` is every field.
unfoldable pub shows : Option (List String) → String → Bool
unfolding contains
shows none f = true
shows (some fs) f = contains f fs

module _ (host : Host) (linked : Linked) where
  unfoldable pub satisfies : Option SqlExpr → Row → Bool
  unfolding holds
  satisfies none row = true
  satisfies (some e) row = holds host linked e row

  unfoldable pub admits : Grant → Row → Bool
  unfolding satisfies
  admits g stored = satisfies g.where_ stored

  unfoldable pub applies : Row → Row → Grant → Bool
  unfolding admits satisfies
  applies row stored g = admits g stored && satisfies g.check row

  unfoldable pub cells_give : Row → List ConditionalGrant → String → Bool
  unfolding any holds contains
  cells_give row cs f =
      any (λ (c : ConditionalGrant). holds host linked c.when row && contains f c.fields) cs

  unfoldable pub fns_give : Identity → Row → List FieldsFn → String → Bool
  unfolding any shows
  fns_give identity row fns f = any (λ (fn : FieldsFn). shows (fn identity row) f) fns

  -- fields, conditional fields and resolvers together
  unfoldable pub gives_by :
      Identity → Row → Option (List String) → List ConditionalGrant → List FieldsFn → String → Bool
  unfolding contains cells_give fns_give
  gives_by identity row none cs fns f = true
  gives_by identity row (some fs) cs fns f =
      contains f fs || cells_give row cs f || fns_give identity row fns f

  unfoldable pub gives : Identity → Row → Grant → String → Bool
  unfolding gives_by
  gives identity row g f = gives_by identity row g.fields g.conditional g.fields_fns f
