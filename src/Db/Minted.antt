-- ===== src/Db/Minted.antt =====
-- Where the values come from that `insert` of runtime/db.ts stores: the caller, the forced values of the
-- policies, and the uuids that the server mints.
use mathlib.Core.List.{Memᴰ}
use pramen.Base.{
  ℕ, suc, String, ◌≡◌, refl, sym, ap, subst, ◌∙◌, Bool, true, false, ◌&&◌, ◌==◌, eq_iff, Option,
  none, some, List, [], ◌∷◌, ◌++◌, lookup, contains, contains-append, Bool-cases, Option-cases, ◌⊎◌,
  inl, inr, arith, if◌then◌else◌,
}
use pramen.Cell.{Cell, text, Row, column}
use pramen.Expr.Eval.{missing}
use pramen.Schema.{FieldDef}
use pramen.Acl.Policies.{put}
use pramen.Db.{Env}
use pramen.Db.Values.{assign, is_uuid, fill_uuids}

-- the value of a column that a row of forced values gives last
unfoldable pub forced : String → Row → Option Cell
forced c [] = none
forced c ((k, v) ∷ rest) = elim (forced c rest) [
  | some w ↦ some w
  | none ↦ if k == c then some v else none
]

-- what an insert is given for a column: the forced value, or the caller's
unfoldable pub given : Row → Row → String → Option Cell
given set values c = elim (forced c set) [ some v ↦ some v | none ↦ lookup c values ]

lookup-put :
    (c k : String) (v : Cell) (row : Row)
    → lookup c (put k v row) ≡ (if k == c then some v else lookup c row)
unfolding put lookup
lookup-put c k v [] = refl
lookup-put c k v ((j, w) ∷ rest) = elim (Bool-cases (j == k)) [
  | inl e ↦ elim (Bool-cases (k == c)) [
    | inl f ↦ rw (e, f) refl
    | inr f ↦ rw (e, f, (eq_iff j k).0 e, f) refl
  ]
  | inr e ↦ elim (Bool-cases (k == c)) [
    | inl f ↦
        let path : k ≡ c = (eq_iff k c).0 f in
        let other : (j == c) ≡ false = subst (λ x. (j == x) ≡ false) path e in
        rw (e, other) (lookup-put c k v rest)
    | inr f ↦ elim (Bool-cases (j == c)) [
      | inl g ↦ rw (e, f, g) refl
      | inr g ↦ rw (e, g) (lookup-put c k v rest)
    ]
  ]
]

pub lookup-assign : (c : String) (set row : Row) → lookup c (assign row set) ≡ given set row c
unfolding assign given forced
lookup-assign c [] row = refl
lookup-assign c ((k, v) ∷ rest) row = elim (Option-cases (forced c rest)) [
  | inr (w, e) ↦ lookup-assign c rest (put k v row) ∙ rw (given, e) refl
  | inl e ↦
      lookup-assign c rest (put k v row)
      ∙ rw (given, e)
          (elim (Bool-cases (k == c)) [
            | inl f ↦ rw f (lookup-put c k v row ∙ rw f refl)
            | inr f ↦ rw f (lookup-put c k v row ∙ rw f refl)
          ])
]

module _ (env : Env) where
  -- The server minted the column: it is a generated uuid field, and no value was given for it.
  unfoldable pub Minted : List (String × FieldDef) → String → Option Cell → Option Cell → Type 0
  Minted fields c before stored =
      (f : FieldDef) × (n : ℕ) × Memᴰ (c, f) fields
      × (is_uuid f.type ≡ true)
      × (f.generated ≡ true)
      × (missing before ≡ true)
      × (stored ≡ some (text (env.mint n)))

  -- a column of the values is as it was given, or minted and on the list of the generated columns
  Sourced : List (String × FieldDef) → String → Row → Row → Bool → Bool → Type 0
  Sourced fields c row vals was is =
      ((lookup c vals ≡ lookup c row) × (is ≡ was))
      ⊎ (Minted fields c (lookup c row) (lookup c vals) × (is ≡ true))

  later :
      (fields : List (String × FieldDef)) (x : String × FieldDef) (c : String) (row vals : Row)
      (was is : Bool)
      → Sourced fields c row vals was is
      → Sourced (x ∷ fields) c row vals was is
  unfolding Sourced Minted
  later fields x c row vals was is (inl h) = inl h
  later fields x c row vals was is (inr ((f, n, m, u, g, b, v), e)) =
      inr ((f, n, Memᴰ.tail m, u, g, b, v), e)

  chosen :
      (fields : List (String × FieldDef)) (c : String) (row : Row) (was b : Bool)
      (x y : Row × (List String × ℕ))
      → (b ≡ true → Sourced fields c row x.0 was (contains c x.1.0))
      → (b ≡ false → Sourced fields c row y.0 was (contains c y.1.0))
      → Sourced fields c row (if b then x else y).0 was (contains c (if b then x else y).1.0)
  chosen fields c row was true x y h k = h refl
  chosen fields c row was false x y h k = k refl

  -- a field that is minted, with the fields after it
  here :
      (name c : String) (f : FieldDef) (rest : List (String × FieldDef)) (n : ℕ) (row vals : Row)
      (filled : List String) (is : Bool)
      → (is_uuid f.type && f.generated && missing (column row name)) ≡ true
      → Sourced rest c (put name (text (env.mint n)) row) vals (contains c (filled ++ name ∷ [])) is
      → Sourced ((name, f) ∷ rest) c row vals (contains c filled) is
  unfolding Sourced Minted contains
  here name c f rest n row vals filled is h s = elim (Bool-cases (name == c)) [
    | inl g ↦
        let path : name ≡ c = (eq_iff name c).0 g in
        let blank : missing (lookup c row) ≡ true =
          subst (λ x. missing (lookup x row) ≡ true) path (ground (arith, h)) in
        let typed : is_uuid f.type ≡ true = ground (arith, h) in
        let made : f.generated ≡ true = ground (arith, h) in
        elim s [
          | inl (l, i) ↦ inr (
            (
              f,
              n,
              Memᴰ.head (ap (λ x. (x, f)) (sym path)),
              typed,
              made,
              blank,
              l ∙ lookup-put c name (text (env.mint n)) row ∙ rw g refl,
            ),
            i ∙ contains-append c filled (name ∷ []) ∙ ground (arith, g),
          )
          | inr ((f', k, _, _, _, _, v), i) ↦
              inr ((f, k, Memᴰ.head (ap (λ x. (x, f)) (sym path)), typed, made, blank, v), i)
        ]
    | inr g ↦
        let same : lookup c (put name (text (env.mint n)) row) ≡ lookup c row =
          lookup-put c name (text (env.mint n)) row ∙ rw g refl in
        let listed : contains c (filled ++ name ∷ []) ≡ contains c filled =
          contains-append c filled (name ∷ []) ∙ ground (arith, g) in
        elim s [
          | inl (l, i) ↦ inl (l ∙ same, i ∙ listed)
          | inr ((f', k, m, u, w, b, v), i) ↦
              inr ((f', k, Memᴰ.tail m, u, w, subst (λ o. missing o ≡ true) same b, v), i)
        ]
  ]

  fill_uuids-Sourced :
      (fields : List (String × FieldDef)) (n : ℕ) (row : Row) (filled : List String) (c : String)
      → Sourced fields c row
          (fill_uuids env fields n row filled).0
          (contains c filled)
          (contains c (fill_uuids env fields n row filled).1.0)
  unfolding fill_uuids Sourced
  fill_uuids-Sourced [] n row filled c = inl (refl, refl)
  fill_uuids-Sourced ((name, f) ∷ rest) n row filled c =
      chosen ((name, f) ∷ rest) c row (contains c filled)
        (is_uuid f.type && f.generated && missing (column row name))
        (fill_uuids env rest (suc n) (put name (text (env.mint n)) row) (filled ++ name ∷ []))
        (fill_uuids env rest n row filled)
        (λ e. here name c f rest n row _ filled _ e (
          fill_uuids-Sourced rest (suc n) (put name (text (env.mint n)) row) (filled ++ name ∷ [])
            c))
        λ e. later rest (name, f) c row _ _ _ (fill_uuids-Sourced rest n row filled c)

  -- Where a column of the inserted values comes from: it is as it was given, if it is not on the list of the
  -- generated ones, and minted if it is.
  unfoldable pub Comes :
      List (String × FieldDef) → Bool → String → Option Cell → Option Cell → Type 0
  Comes fields false c before stored = stored ≡ before
  Comes fields true c before stored = Minted fields c before stored

  pub fill_uuids-Comes :
      (fields : List (String × FieldDef)) (n : ℕ) (set values : Row) (c : String)
      → Comes fields
          (contains c (fill_uuids env fields n (assign values set) []).1.0)
          c
          (given set values c)
          (lookup c (fill_uuids env fields n (assign values set) []).0)
  unfolding Comes Sourced Minted contains
  fill_uuids-Comes fields n set values c =
      elim (fill_uuids-Sourced fields n (assign values set) [] c) [
        | inl (l, i) ↦
            subst
              (λ b.
                Comes fields b c (given set values c)
                  (lookup c (fill_uuids env fields n (assign values set) []).0))
              (sym i) (l ∙ lookup-assign c set values)
        | inr ((f, k, m, u, g, b, v), i) ↦
            subst
              (λ b.
                Comes fields b c (given set values c)
                  (lookup c (fill_uuids env fields n (assign values set) []).0))
              (sym i)
              (f, k, m, u, g, subst (λ o. missing o ≡ true) (lookup-assign c set values) b, v)
      ]
