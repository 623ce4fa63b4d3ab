-- ===== src/Expand/Matrices/Choices.antt =====
-- The combinations of a matrix choose one value for each of its dimensions, in every way.
use cicada.Base.{
  ◌≡◌, refl, ◌∙◌, subst, String, List, [], ◌∷◌, ◌++◌, none, some, Bool, true, false, ◌&&◌, is_empty,
  any, all, All, all-append, contains, contains-append, distinct, disjoint, disjoint-cons,
  disjoint-congr, lookup, insert, string_eq, arith, ◌==◌, lookup-insert,
}
use mathlib.Core.List.{append_assoc, append-nil, map-append}
use cicada.Model.{Matrix, Dimension}
use cicada.Expand.Matrices.{
  Combo, validate_matrix, check_dimensions, extend, product_from, combinations,
}
use cicada.Expand.Matrices.Product.{
  dimension_names, Counted, check_dimensions_sound, length-product_from,
}
use cicada.Expand.Matrices.Extend.{extend-All, extend-any}

abbrev pub chosen : Combo → Dimension → Bool
chosen c d = elim (lookup c d.name) as (λ _. Bool) [ none ↦ false | some v ↦ contains d.values v ]

-- One value for each dimension, and no other key.
abbrev pub Assigns : List Dimension → Combo → Type 0
Assigns dims c =
    (all (chosen c) dims ≡ true)
    × ((k : String) → contains (dimension_names dims) k ≡ false → lookup c k ≡ none)

abbrev pub picks : (String → String) → Combo → Dimension → Bool
picks pick c d = elim (lookup c d.name) as (λ _. Bool) [ none ↦ false | some v ↦ v == pick d.name ]

chosen-insert :
    (dims : List Dimension) (c : Combo) (n v : String)
    → contains (dimension_names dims) n ≡ false
    → all (chosen c) dims ≡ true
    → all (chosen (insert c n v)) dims ≡ true
chosen-insert [] c n v h h' = refl
chosen-insert (d ∷ dims) c n v h h' = ground (
  arith,
  h,
  h',
  chosen-insert dims c n v,
  lookup-insert c n d.name v,
  string_eq.eqb_iff n d.name,
  string_eq.eqb_iff d.name n,
)

picks-insert :
    (pick : String → String) (dims : List Dimension) (c : Combo) (n v : String)
    → contains (dimension_names dims) n ≡ false
    → all (picks pick c) dims ≡ true
    → all (picks pick (insert c n v)) dims ≡ true
picks-insert pick [] c n v h h' = refl
picks-insert pick (d ∷ dims) c n v h h' = ground (
  arith,
  h,
  h',
  picks-insert pick dims c n v,
  lookup-insert c n d.name v,
  string_eq.eqb_iff n d.name,
  string_eq.eqb_iff d.name n,
)

names-concat :
    (done : List Dimension) (d : Dimension)
    → dimension_names (done ++ d ∷ []) ≡ dimension_names done ++ d.name ∷ []
names-concat done d = map-append (λ (e : Dimension). e.name) done (d ∷ [])

Assigns-insert :
    (done : List Dimension) (d : Dimension) (c : Combo) (v : String)
    → contains (dimension_names done) d.name ≡ false
    → Assigns done c
    → contains d.values v ≡ true
    → Assigns (done ++ d ∷ []) (insert c d.name v)
Assigns-insert done d c v new (values, others) m = (
  all-append (chosen (insert c d.name v)) done (d ∷ [])
      ∙ ground (
        arith,
        m,
        chosen-insert done c d.name v new values,
        lookup-insert c d.name d.name v,
        string_eq.eqb_iff d.name d.name,
      ),
  λ k h. ground (
    arith,
    h,
    names-concat done d,
    contains-append (dimension_names done) (d.name ∷ []) k,
    lookup-insert c d.name k v,
    others k,
  ),
)

picks-concat :
    (pick : String → String) (done : List Dimension) (d : Dimension) (c : Combo)
    → contains (dimension_names done) d.name ≡ false
    → all (picks pick c) done ≡ true
    → all (picks pick (insert c d.name (pick d.name))) (done ++ d ∷ []) ≡ true
picks-concat pick done d c new h =
    let v = pick d.name in
    all-append (picks pick (insert c d.name v)) done (d ∷ [])
    ∙ ground (
      arith,
      picks-insert pick done c d.name v new h,
      lookup-insert c d.name d.name v,
      string_eq.eqb_iff d.name d.name,
      string_eq.eqb_iff v v,
    )

both : (b c : Bool) → (b && c) ≡ true → (b ≡ true) × (c ≡ true)
both b c h = ground arith

-- The names of the dimensions done and left are apart.
abbrev Apart : List Dimension → List Dimension → Type 0
Apart done dims =
    (distinct (dimension_names dims) ≡ true)
    × (disjoint (dimension_names done) (dimension_names dims) ≡ true)

Apart-step :
    (done : List Dimension) (d : Dimension) (dims : List Dimension)
    → Apart done (d ∷ dims)
    → (contains (dimension_names done) d.name ≡ false) × Apart (done ++ d ∷ []) dims
Apart-step done d dims (unique, apart) =
    let same =
      disjoint-congr (dimension_names (done ++ d ∷ [])) (d.name ∷ dimension_names done)
        (dimension_names dims)
        (λ k.
          ground
            (arith, names-concat done d, contains-append (dimension_names done) (d.name ∷ []) k)) in
    (
      ground (arith, apart),
      (
        ground (arith, unique),
        same
            ∙ ground (
              arith,
              unique,
              apart,
              disjoint-cons d.name (dimension_names done) (dimension_names dims),
            ),
      ),
    )

product_from-All :
    (dims done : List Dimension) (combos : List Combo)
    → Apart done dims
    → All (Assigns done) combos
    → All (Assigns (done ++ dims)) (product_from dims combos)
unfolding product_from
product_from-All [] done combos a h = rw (append-nil done) h
product_from-All (d ∷ dims) done combos a h =
    let (new, a') = Apart-step done d dims a in
    let h' =
      extend-All (Assigns done) (Assigns (done ++ d ∷ [])) d.name d.values combos
        (λ c v. Assigns-insert done d c v new) h in
    subst (λ ds. All (Assigns ds) (product_from dims (extend d.name d.values combos)))
      (append_assoc done (d ∷ []) dims)
      (product_from-All dims (done ++ d ∷ []) (extend d.name d.values combos) a' h')

product_from-any :
    (pick : String → String) (dims done : List Dimension) (combos : List Combo)
    → Apart done dims
    → all (λ d. contains d.values (pick d.name)) dims ≡ true
    → any (λ c. all (picks pick c) done) combos ≡ true
    → any (λ c. all (picks pick c) (done ++ dims)) (product_from dims combos) ≡ true
unfolding product_from
product_from-any pick [] done combos a w h = rw (append-nil done) h
product_from-any pick (d ∷ dims) done combos a w h =
    let (new, a') = Apart-step done d dims a in
    let (here, later) =
      both (contains d.values (pick d.name)) (all (λ e. contains e.values (pick e.name)) dims) w in
    let h' =
      extend-any (λ c. all (picks pick c) done) (λ c. all (picks pick c) (done ++ d ∷ [])) d.name
        (pick d.name) (λ c. picks-concat pick done d c new) d.values combos here h in
    subst
      (λ ds.
        any (λ c. all (picks pick c) ds) (product_from dims (extend d.name d.values combos)) ≡ true)
      (append_assoc done (d ∷ []) dims)
      (product_from-any pick dims (done ++ d ∷ []) (extend d.name d.values combos) a' later h')

dimensions_of :
    (m : Matrix)
    → validate_matrix (some m) ≡ none
    → (is_empty m.dimensions ≡ false) × (check_dimensions m.dimensions [] 1 ≡ none)
unfolding validate_matrix
dimensions_of m h = (ground (arith, h), ground (arith, h))

-- A matrix that validates has combinations, as many as the product of the numbers of values, between 1
-- and 10,000. Each assigns to every dimension one of its values and to other names nothing, and every
-- choice of a value for each dimension is among them.
pub combinations_exact :
    (m : Matrix)
    → validate_matrix (some m) ≡ none
    → (combos : List Combo) × Counted m combos
      × All (Assigns m.dimensions) combos
      × ((pick : String → String)
          → all (λ d. contains d.values (pick d.name)) m.dimensions ≡ true
          → any (λ c. all (picks pick c) m.dimensions) combos ≡ true)
unfolding combinations
combinations_exact m h =
    let (some_dims, checked) = dimensions_of m h in
    let s = check_dimensions_sound m.dimensions [] 1 (omega arith) checked in
    let len = length-product_from m.dimensions ([] ∷ []) in
    let apart : Apart [] m.dimensions = (s.unique, s.new) in
    (
      product_from m.dimensions ([] ∷ []),
      (
        ground (arith, some_dims, s.counted),
        omega (arith, len),
        omega (arith, len, s.filled),
        omega (arith, len, s.bounded),
      ),
      product_from-All m.dimensions [] ([] ∷ []) apart ((refl, λ k _. refl), tt),
      λ pick w. product_from-any pick m.dimensions [] ([] ∷ []) apart w refl,
    )
