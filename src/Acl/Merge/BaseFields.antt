-- ===== src/Acl/Merge/BaseFields.antt =====
-- The base fields of a merge, and the rows of its scope.
use pramen.Base.{
  String, ◌≡◌, refl, sym, ◌∙◌, Bool, true, false, not, ◌&&◌, ◌||◌, Option, none, some, List, [],
  ◌∷◌, ◌++◌, any, All, contains, keep, contains-keep, contains-set_of, contains-add_all,
  contains-append, arith, Bool-cases, Option-cases, inl, inr,
}
use pramen.Cell.{Row, Host}
use pramen.Expr.{SqlExpr}
use pramen.Expr.Meaning.{Linked}
use pramen.Acl.{Identity}
use pramen.Acl.Merge.{
  Grant, is_row_wide, present, every_step, every_of, wide_step, wide_of, join_base, base_fields,
}
use pramen.Acl.Merge.Rows.{shows, satisfies, admits, applies, gives_by, gives}
use pramen.Acl.Merge.Bind.{admits_all-satisfies}

-- What `every` says: each grant lists the field, or all fields.
every_step-shows :
    (fields every : Option (List String)) (f : String)
    → shows (every_step fields every) f ≡ (shows fields f && shows every f)
unfolding every_step shows
every_step-shows none every f = refl
every_step-shows (some fs) none f = ground (arith, contains-set_of f fs)
every_step-shows (some fs) (some ev) f = ground (
  arith,
  contains-set_of f (keep (λ x. contains x ev) fs),
  contains-keep (λ x. contains x ev) f fs,
)

every_of-shows :
    (gs : List Grant) (every : Option (List String)) (f : String)
    → shows (every_of gs every) f ≡ true
    → All (λ (g : Grant). shows g.fields f ≡ true) gs × (shows every f ≡ true)
unfolding every_of
every_of-shows [] every f h = (tt, h)
every_of-shows (g ∷ gs) every f h =
    let (later, now) = every_of-shows gs (every_step g.fields every) f h in
    let both : (shows g.fields f && shows every f) ≡ true =
      sym (every_step-shows g.fields every f) ∙ now in
    ((ground arith, later), ground arith)

-- A grant of every row whose check, if any, is absent lists the field.
abbrev is_wide : String → Grant → Bool
is_wide f g = (is_row_wide g && not (present g.check)) && shows g.fields f

wide_step-shows :
    (b : Bool) (fields wide : Option (List String)) (f : String)
    → shows (wide_step b fields wide) f ≡ (shows wide f || (b && shows fields f))
unfolding wide_step shows
wide_step-shows false fields wide f = ground arith
wide_step-shows true fields none f = refl
wide_step-shows true none (some w) f = ground arith
wide_step-shows true (some fs) (some w) f = contains-add_all f fs w

wide_of-shows :
    (gs : List Grant) (wide : Option (List String)) (f : String)
    → shows (wide_of gs wide) f ≡ (shows wide f || any (is_wide f) gs)
unfolding wide_of any
wide_of-shows [] wide f = ground arith
wide_of-shows (g ∷ gs) wide f = ground (
  arith,
  wide_step-shows (is_row_wide g && not (present g.check)) g.fields wide f,
  wide_of-shows gs (wide_step (is_row_wide g && not (present g.check)) g.fields wide) f,
)

shows-nothing : (f : String) → shows (some []) f ≡ false
unfolding shows contains
shows-nothing f = refl

join_base-shows :
    (every wide : Option (List String)) (f : String)
    → shows (join_base every wide) f ≡ true
    → (shows every f || shows wide f) ≡ true
unfolding join_base shows
join_base-shows none wide f h = refl
join_base-shows (some every) none f h = ground arith
join_base-shows (some every) (some wide) f h =
    ground (arith, contains-set_of f (every ++ wide), contains-append f every wide)

-- A field of the base is one that every grant lists, or one that a grant of every row lists.
base_fields-shows :
    (gs : List Grant) (f : String)
    → shows (base_fields gs) f ≡ true
    → (shows (every_of gs none) f || any (is_wide f) gs) ≡ true
unfolding base_fields
base_fields-shows gs f h = ground (
  arith,
  join_base-shows (every_of gs none) (wide_of gs (some [])) f h,
  wide_of-shows gs (some []) f,
  shows-nothing f,
)

and_parts : (a b c : Bool) → ((a && b) && c) ≡ true → (a ≡ true) × (b ≡ true) × (c ≡ true)
and_parts a b c h = ground arith

module _ (host : Host) (linked : Linked) (identity : Identity) (row stored : Row) where
  -- a grant that applies and gives the field
  abbrev pub applies_gives : String → Grant → Bool
  applies_gives f g = applies host linked row stored g && gives host linked identity row g f

  shows-gives :
      (g : Grant) (f : String) → shows g.fields f ≡ true → gives host linked identity row g f ≡ true
  unfolding gives shows gives_by
  shows-gives g f h = elim (Option-cases g.fields) [
    | inl all' ↦ rw all'
    | inr (fs, some') ↦ rw some' (ground arith)
  ]

  unchecked-satisfies :
      (check : Option SqlExpr) → not (present check) ≡ true → satisfies host linked check row ≡ true
  unfolding present satisfies
  unchecked-satisfies none h = refl
  unchecked-satisfies (some e) h = cc

  wide-applies : (g : Grant) (f : String) → is_wide f g ≡ true → applies_gives f g ≡ true
  unfolding applies admits present
  wide-applies g f h =
      let (wide, free, listed) = and_parts (is_row_wide g) _ _ h in
      rw (
        admits_all-satisfies host linked g.where_ stored wide,
        unchecked-satisfies g.check free,
        shows-gives g f listed,
      )

  any-wide :
      (gs : List Grant) (f : String) → any (is_wide f) gs ≡ true → any (applies_gives f) gs ≡ true
  unfolding any
  any-wide [] f h = h
  any-wide (g ∷ gs) f h = elim (Bool-cases (is_wide f g)) [
    | inl yes' ↦ rw (wide-applies g f yes')
    | inr no' ↦ ground (arith, any-wide gs f (rw no' at h))
  ]

  any-every :
      (gs : List Grant) (f : String)
      → All (λ (g : Grant). shows g.fields f ≡ true) gs
      → any (applies host linked row stored) gs ≡ true
      → any (applies_gives f) gs ≡ true
  unfolding any
  any-every [] f each h = h
  any-every (g ∷ gs) f (here, later) h = elim (Bool-cases (applies host linked row stored g)) [
    | inl yes' ↦ rw (yes', shows-gives g f here)
    | inr no' ↦ rw no' (any-every gs f later (rw no' at h))
  ]

  -- A base field is given by some grant that applies, if any grant applies.
  pub base-gives :
      (gs : List Grant) (f : String)
      → any (applies host linked row stored) gs ≡ true
      → shows (base_fields gs) f ≡ true
      → any (applies_gives f) gs ≡ true
  base-gives gs f some' h = elim (Bool-cases (shows (every_of gs none) f)) [
    | inl yes' ↦ any-every gs f (every_of-shows gs none f yes').0 some'
    | inr no' ↦ any-wide gs f (rw no' at (base_fields-shows gs f h))
  ]
