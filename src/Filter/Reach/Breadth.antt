-- ===== src/Filter/Reach/Breadth.antt =====
-- `bfsReachable` ends, and finds exactly the names that a walk leads to.
use cicada.Base.{
  ℕ, zero, suc, ◌+◌, ◌≤◌, ◌≡◌, sym, ap, ◌↔◌, ◌⊎◌, inl, inr, String, List, [], ◌∷◌, true, false, not,
  ◌&&◌, ◌||◌, length, contains, keep, string_eq, arith, length-append, contains-append,
  contains-cons_self, List-cases, Bool-cases, eqb-cases, subst,
}
use cicada.Model.{ok}
use cicada.Filter.Reach.{
  Adjacency, targets, entries, Bfs, offer, offer_all, expand, bfs_loop, bfs_reachable,
}

-- The walks along the map.
pub data Reach (adj : Adjacency) (start : String) : String → Type 0 where
  here : Reach adj start start
  next : {u v : String} → Reach adj start u → contains (targets adj u) v ≡ true → Reach adj start v

-- How many entries of `universe` are not in the set.
abbrev pub fresh : List String → List String → ℕ
fresh visited universe = length (keep (λ x. not (contains visited x)) universe)

pub fresh-cons_le :
    (visited universe : List String) (a : String)
    → fresh (a ∷ visited) universe ≤ fresh visited universe
fresh-cons_le visited [] a = omega arith
fresh-cons_le visited (x ∷ universe) a = ground (arith, fresh-cons_le visited universe a)

pub fresh-cons_lt :
    (visited universe : List String) (a : String)
    → contains universe a ≡ true
    → contains visited a ≡ false
    → suc (fresh (a ∷ visited) universe) ≤ fresh visited universe
fresh-cons_lt visited [] a h new = cc
fresh-cons_lt visited (x ∷ universe) a h new = ground (
  arith,
  fresh-cons_lt visited universe a,
  fresh-cons_le visited universe a,
  string_eq.eqb_iff a x,
  string_eq.eqb_iff x a,
)

pub fresh-le : (visited universe : List String) → fresh visited universe ≤ length universe
fresh-le visited [] = omega arith
fresh-le visited (x ∷ universe) = ground (arith, fresh-le visited universe)

pub contains-entries :
    (adj : Adjacency) (u v : String)
    → contains (targets adj u) v ≡ true
    → contains (entries adj) v ≡ true
contains-entries [] u v h = cc
contains-entries ((j, l) ∷ adj) u v h =
    ground (arith, h, contains-entries adj u v, contains-append l (entries adj) v)

visited-offer_all :
    (es : List String) (s : Bfs) (w : String)
    → contains (offer_all es s).visited w ≡ (contains s.visited w || contains es w)
unfolding offer_all
visited-offer_all [] s w = ground arith
visited-offer_all (e ∷ es) s w =
    ground (arith, visited-offer_all es (offer s e) w, string_eq.eqb_iff w e)

queue-offer_all :
    (es : List String) (s : Bfs) (w : String)
    → contains (offer_all es s).queue w
      ≡ (contains s.queue w || contains es w && not (contains s.visited w))
unfolding offer_all
queue-offer_all [] s w = ground arith
queue-offer_all (e ∷ es) s w = ground (
  arith,
  queue-offer_all es (offer s e) w,
  string_eq.eqb_iff w e,
  contains-append s.queue (e ∷ []) w,
)

offer_all-measure :
    (universe es : List String) (s : Bfs)
    → ((w : String) → contains es w ≡ true → contains universe w ≡ true)
    → fresh (offer_all es s).visited universe + length (offer_all es s).queue
      ≤ fresh s.visited universe + length s.queue
unfolding offer_all
offer_all-measure universe [] s h = omega arith
offer_all-measure universe (e ∷ es) s h = ground (
  arith,
  offer_all-measure universe es (offer s e) (λ w m. h w (ground (arith, m))),
  fresh-cons_lt s.visited universe e (h e (contains-cons_self e es)),
  length-append s.queue (e ∷ []),
)

module _ (adj : Adjacency) (start : String) where
  record Inv (s : Bfs) : Type 0 where
    source : contains s.visited start ≡ true
    queued : (v : String) → contains s.queue v ≡ true → contains s.visited v ≡ true
    sound : (v : String) → contains s.visited v ≡ true → Reach adj start v
    closed :
        (u v : String)
        → contains s.visited u ≡ true
        → contains (targets adj u) v ≡ true
        → (contains s.queue u ≡ true) ⊎ (contains s.visited v ≡ true)

  abbrev first : Bfs
  first = record { visited = start ∷ []; queue = start ∷ [] }

  Inv-first : Inv first
  Inv-first = record {
    source = contains-cons_self start [];
    queued = λ v h. h;
    sound = λ v h. elim (eqb-cases v start) [
      | inl same ↦ subst (Reach adj start) (sym same) here
      | inr other ↦ absurd (ground (arith, h, other))
    ];
    closed = λ u v h e. inl h;
  }

  Inv-expand :
      (s : Bfs) (cur : String) (rest : List String)
      → s.queue ≡ cur ∷ rest
      → Inv s
      → Inv (expand adj s.visited cur rest)
  unfolding expand
  Inv-expand s cur rest e inv =
      let s' : Bfs = record { visited = s.visited; queue = rest } in
      let seen = λ (w : String). visited-offer_all (targets adj cur) s' w in
      let waits = λ (w : String). queue-offer_all (targets adj cur) s' w in
      let current : contains s.visited cur ≡ true =
        inv.queued cur (rw e (contains-cons_self cur rest)) in
      record {
        source = ground (arith, seen start, inv.source);
        queued = λ v h. ground (arith, h, seen v, waits v, inv.queued v, e);
        sound = λ v h. elim (Bool-cases (contains s.visited v)) [
          | inl old ↦ inv.sound v old
          | inr new ↦ next (inv.sound cur current) (ground (arith, h, new, seen v))
        ];
        closed = λ u v h edge.
            ground
              (arith, h, edge, seen u, seen v, waits u, inv.closed u v, e, string_eq.eqb_iff u cur);
      }

  Inv-empty : (s : Bfs) → s.queue ≡ [] → Inv s → Inv (record { visited = s.visited; queue = [] })
  Inv-empty s e inv = subst (λ q. Inv (record { visited = s.visited; queue = q })) e inv

  expand-enough :
      (fuel : ℕ) (s : Bfs) (cur : String) (rest : List String)
      → s.queue ≡ cur ∷ rest
      → fresh s.visited (entries adj) + length s.queue ≤ suc fuel
      → fresh (expand adj s.visited cur rest).visited (entries adj)
          + length (expand adj s.visited cur rest).queue
        ≤ fuel
  unfolding expand
  expand-enough fuel s cur rest e enough = omega (
    arith,
    ap length e,
    offer_all-measure (entries adj) (targets adj cur) (record { visited = s.visited; queue = rest })
        (contains-entries adj cur),
  )

  -- The loop ends with an empty queue.
  bfs_loop-Inv :
      (fuel : ℕ) (s : Bfs)
      → Inv s
      → fresh s.visited (entries adj) + length s.queue ≤ fuel
      → (visited : List String) × (bfs_loop adj fuel s ≡ ok visited)
        × Inv (record { visited = visited; queue = [] })
  unfolding bfs_loop
  bfs_loop-Inv zero s inv enough = elim (List-cases s.queue) [
    | inl done ↦ (s.visited, rw (done, bfs_loop), Inv-empty s done inv)
    | inr (cur, rest, e) ↦ absurd (omega (arith, ap length e))
  ]
  bfs_loop-Inv (suc fuel) s inv enough = elim (List-cases s.queue) [
    | inl done ↦ (s.visited, rw (done, bfs_loop), Inv-empty s done inv)
    | inr (cur, rest, e) ↦
        let (visited, ends, last) =
          bfs_loop-Inv fuel (expand adj s.visited cur rest) (Inv-expand s cur rest e inv)
            (expand-enough fuel s cur rest e enough) in
        (visited, rw (e, bfs_loop) ends, last)
  ]

  complete :
      (visited : List String)
      → Inv (record { visited = visited; queue = [] })
      → {v : String} → Reach adj start v
      → contains visited v ≡ true
  complete visited inv here = inv.source
  complete visited inv (next {u} {v} r e) = elim (inv.closed u v (complete visited inv r) e) [
    | inl impossible ↦ cc
    | inr seen ↦ seen
  ]

  -- `bfsReachable` returns, with exactly the names that a walk from the start leads to.
  pub bfs_reachable_exact :
      (visited : List String) × (bfs_reachable start adj ≡ ok visited)
      × ((v : String) → (contains visited v ≡ true) ↔ Reach adj start v)
  unfolding bfs_reachable
  bfs_reachable_exact =
      let n = length (entries adj) in
      let (visited, ends, inv) =
        bfs_loop-Inv (suc n) first Inv-first (omega (arith, fresh-le (start ∷ []) (entries adj))) in
      (visited, ends, λ v. (inv.sound v, complete visited inv))
