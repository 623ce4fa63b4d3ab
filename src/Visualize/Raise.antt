-- ===== src/Visualize/Raise.antt =====
-- What the index of the jobs holds, and what raising the depth of one job changes.
use cicada.Base.{
  ℕ, zero, suc, ◌+◌, ◌≤◌, ◌<◌, ◌≡◌, refl, sym, ◌∙◌, ap, String, List, [], ◌∷◌, none, some, true,
  false, ◌==◌, contains, distinct, lookup, insert, lookup-insert, length, get_or, get_or-set,
  length-set, set, string_eq, nat_eq, arith, Bool-cases, Option-cases, inl, inr, eqb_refl,
}
use cicada.Model.{Job}
use cicada.Validate.Index.{names, name_of}
use cicada.Visualize.{name_index, max, raise_depth}

-- The index finds each job under its name.
name_index-other :
    (off : ℕ) (jobs : List Job) (index : List (String × ℕ)) (n : String)
    → contains (names jobs) n ≡ false
    → lookup (name_index off jobs index) n ≡ lookup index n
unfolding name_index
name_index-other off [] index n h = refl
name_index-other off (j ∷ jobs) index n h =
    name_index-other (suc off) jobs (insert index j.name off) n (ground (arith, h))
    ∙ ground (arith, lookup-insert index j.name n off, h)

pub name_index-name_of :
    (off k : ℕ) (jobs : List Job) (index : List (String × ℕ)) (n : String)
    → distinct (names jobs) ≡ true
    → name_of jobs k ≡ some n
    → lookup (name_index off jobs index) n ≡ some (off + k)
unfolding name_index
name_index-name_of off k [] index n u h = cc
name_index-name_of off zero (j ∷ jobs) index n u h =
    let same : j.name ≡ n = cc in
    let absent : contains (names jobs) n ≡ false =
      ap (contains (names jobs)) (sym same) ∙ ground (arith, u) in
    name_index-other (suc off) jobs (insert index j.name off) n absent
    ∙ lookup-insert index j.name n off
    ∙ rw (same, eqb_refl n) (ap some (omega arith))
name_index-name_of off (suc k) (j ∷ jobs) index n u h =
    name_index-name_of (suc off) k jobs (insert index j.name off) n (ground (arith, u)) h
    ∙ ap some (omega arith)

-- What raising one job changes.
pub length-raise_depth :
    (index : List (String × ℕ)) (idx : ℕ) (deps : List String) (ds : List ℕ)
    → length (raise_depth index idx deps ds) ≡ length ds
unfolding raise_depth
length-raise_depth index idx [] ds = refl
length-raise_depth index idx (dep ∷ deps) ds = elim (Option-cases (lookup index dep)) [
  | inl e ↦ ground (arith, e, length-raise_depth index idx deps ds)
  | inr (di, e) ↦
      let v = max (get_or ds idx 0) (get_or ds di 0 + 1) in
      ground (arith, e, length-raise_depth index idx deps (set ds idx v), length-set ds idx v)
]

raise_depth-unknown :
    (index : List (String × ℕ)) (idx : ℕ) (dep : String) (deps : List String) (ds : List ℕ)
    → lookup index dep ≡ none
    → raise_depth index idx (dep ∷ deps) ds ≡ raise_depth index idx deps ds
unfolding raise_depth
raise_depth-unknown index idx dep deps ds e = ground (arith, e)

raise_depth-known :
    (index : List (String × ℕ)) (idx di : ℕ) (dep : String) (deps : List String) (ds : List ℕ)
    → lookup index dep ≡ some di
    → raise_depth index idx (dep ∷ deps) ds
      ≡ raise_depth index idx deps (set ds idx (max (get_or ds idx 0) (get_or ds di 0 + 1)))
unfolding raise_depth
raise_depth-known index idx di dep deps ds e = ground (arith, e)

pub raise_depth-other :
    (index : List (String × ℕ)) (idx j : ℕ) (deps : List String) (ds : List ℕ)
    → idx < length ds
    → (idx == j) ≡ false
    → get_or (raise_depth index idx deps ds) j 0 ≡ get_or ds j 0
unfolding raise_depth
raise_depth-other index idx j [] ds lt h = refl
raise_depth-other index idx j (dep ∷ deps) ds lt h = elim (Option-cases (lookup index dep)) [
  | inl e ↦
      rw (raise_depth-unknown index idx dep deps ds e) (raise_depth-other index idx j deps ds lt h)
  | inr (di, e) ↦
      let v = max (get_or ds idx 0) (get_or ds di 0 + 1) in
      rw (raise_depth-known index idx di dep deps ds e) (
        raise_depth-other index idx j deps (set ds idx v) (omega (arith, length-set ds idx v)) h
        ∙ get_or-set ds idx j v 0 lt
        ∙ rw h refl)
]

raise_depth-grows :
    (index : List (String × ℕ)) (idx : ℕ) (deps : List String) (ds : List ℕ)
    → idx < length ds
    → get_or ds idx 0 ≤ get_or (raise_depth index idx deps ds) idx 0
unfolding raise_depth
raise_depth-grows index idx [] ds lt = omega arith
raise_depth-grows index idx (dep ∷ deps) ds lt = elim (Option-cases (lookup index dep)) [
  | inl e ↦
      rw (raise_depth-unknown index idx dep deps ds e) (raise_depth-grows index idx deps ds lt)
  | inr (di, e) ↦
      let v = max (get_or ds idx 0) (get_or ds di 0 + 1) in
      let written : get_or (set ds idx v) idx 0 ≡ v =
        get_or-set ds idx idx v 0 lt ∙ rw (eqb_refl idx) refl in
      let larger : get_or ds idx 0 ≤ v = ground arith in
      rw (raise_depth-known index idx di dep deps ds e) (
        omega (
          arith,
          raise_depth-grows index idx deps (set ds idx v) (omega (arith, length-set ds idx v)),
          written,
          larger,
        ))
]

pub raise_depth-above :
    (index : List (String × ℕ)) (idx k : ℕ) (deps : List String) (ds : List ℕ) (dep : String)
    → idx < length ds
    → contains deps dep ≡ true
    → lookup index dep ≡ some k
    → (idx == k) ≡ false
    → get_or ds k 0 < get_or (raise_depth index idx deps ds) idx 0
unfolding raise_depth
raise_depth-above index idx k [] ds dep lt m at other = cc
raise_depth-above index idx k (d ∷ deps) ds dep lt m at other = elim (Bool-cases (dep == d)) [
  | inl this ↦
      let v = max (get_or ds idx 0) (get_or ds k 0 + 1) in
      let found : lookup index d ≡ some k =
        ap (lookup index) (sym ((string_eq.eqb_iff dep d).0 this)) ∙ at in
      let written : get_or (set ds idx v) idx 0 ≡ v =
        get_or-set ds idx idx v 0 lt ∙ rw (eqb_refl idx) refl in
      let larger : get_or ds k 0 < v = ground arith in
      rw (raise_depth-known index idx k d deps ds found) (
        omega (
          arith,
          raise_depth-grows index idx deps (set ds idx v) (omega (arith, length-set ds idx v)),
          written,
          larger,
        ))
  | inr later ↦
      let m' : contains deps dep ≡ true = ground (arith, later, m) in
      elim (Option-cases (lookup index d)) [
        | inl e ↦
            rw (raise_depth-unknown index idx d deps ds e)
              (raise_depth-above index idx k deps ds dep lt m' at other)
        | inr (di, e) ↦
            let v = max (get_or ds idx 0) (get_or ds di 0 + 1) in
            let same : get_or (set ds idx v) k 0 ≡ get_or ds k 0 =
              get_or-set ds idx k v 0 lt ∙ rw other refl in
            rw (raise_depth-known index idx di d deps ds e) (
              omega (
                arith,
                same,
                raise_depth-above index idx k deps (set ds idx v) dep
                    (omega (arith, length-set ds idx v)) m' at other,
              ))
      ]
]
