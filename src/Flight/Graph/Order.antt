-- ===== src/Flight/Graph/Order.antt =====
-- flight/flight_director.cc: FlattenSubsystemGraph lists dependencies before their dependents.
use adastra.Prelude.{
  ℕ, zero, suc, ◌<◌, ◌≡◌, refl, true, false, List, [], ◌∷◌, ◌++◌, some, ◌==◌, elem_of, arith,
  append-nil, append_assoc, Bool-cases, inl, inr, ◌⊎◌,
}
use adastra.Flight.Graph.{Flat, flatten_each, flatten_from, flatten_graph}
use adastra.Flight.Graph.Paths.{
  Leads, edge, onward, Within, elem_of-append, unvisited, unvisited_mono, unvisited-visit,
}

-- Each subsystem stands once, and after all its dependencies.
abbrev pub Follows : (ℕ → List ℕ) → List ℕ → List ℕ → Type 0
Follows deps before [] = Unit
Follows deps before (x ∷ xs) =
    (elem_of x before ≡ false) × (Within (deps x) before × Follows deps (before ++ x ∷ []) xs)

module _ (deps : ℕ → List ℕ) where
  Follows-snoc :
      (x : ℕ) (before xs : List ℕ)
      → elem_of x (before ++ xs) ≡ false
      → Within (deps x) (before ++ xs)
      → Follows deps before xs
      → Follows deps before (xs ++ x ∷ [])
  Follows-snoc x before [] new ready h =
      let e = append-nil before in (rw e at new, (λ d m. rw e at (ready d m), tt))
  Follows-snoc x before (y ∷ xs) new ready h =
      let e = append_assoc before (y ∷ []) xs in
      (
        h.0,
        (h.1.0, Follows-snoc x (before ++ y ∷ []) xs (rw e new) (λ d m. rw e (ready d m)) h.1.1),
      )

  record Inv (grey : List ℕ) (s : Flat) : Type 0 where
    parted :
        (x : ℕ) → elem_of x s.visited ≡ true → (elem_of x s.vec ≡ true) ⊎ (elem_of x grey ≡ true)
    listed : Within s.vec s.visited
    open_ones : Within grey s.visited
    apart : (x : ℕ) → elem_of x grey ≡ true → elem_of x s.vec ≡ false
    sorted : Follows deps [] s.vec

  record Visits (grey ds : List ℕ) (s r : Flat) : Type 0 where
    inv : Inv grey r
    grown : Within s.visited r.visited
    kept : Within s.vec r.vec
    there : Within ds r.vec

  -- What holds of a search from one subsystem with some fuel.
  Search : List ℕ → ℕ → Type 0
  Search nodes fuel =
      (v : ℕ) (grey : List ℕ) (s : Flat)
      → elem_of v nodes ≡ true
      → unvisited nodes s.visited < fuel
      → ((g : ℕ) → elem_of g grey ≡ true → Leads deps g v)
      → Inv grey s
      → (r : Flat) × ((flatten_from deps fuel v s ≡ some r) × Visits grey (v ∷ []) s r)

  Inv-open :
      (v : ℕ) (grey : List ℕ) (s : Flat)
      → elem_of v s.visited ≡ false
      → Inv grey s
      → Inv (v ∷ grey) (record { visited = v ∷ s.visited; vec = s.vec })
  unfolding elem_of
  Inv-open v grey s new i = record {
    parted = λ x m. ground (arith, i.parted x);
    listed = λ x m. ground (arith, i.listed x);
    open_ones = λ x m. ground (arith, i.open_ones x);
    apart = λ x m. ground (arith, i.apart x, i.listed x);
    sorted = i.sorted;
  }

  Inv-close :
      (v : ℕ) (grey : List ℕ) (t : Flat)
      → elem_of v grey ≡ false
      → Within (deps v) t.vec
      → Inv (v ∷ grey) t
      → Inv grey (record { visited = t.visited; vec = t.vec ++ v ∷ [] })
  unfolding elem_of
  Inv-close v grey t new ready i = record {
    parted = λ x m. ground (arith, i.parted x, elem_of-append x t.vec (v ∷ []));
    listed = λ x m. ground (arith, i.listed x, elem_of-append x t.vec (v ∷ []), i.open_ones x);
    open_ones = λ x m. ground (arith, i.open_ones x);
    apart = λ x m. ground (arith, i.apart x, elem_of-append x t.vec (v ∷ []));
    sorted = Follows-snoc v [] t.vec (i.apart v (ground arith)) ready i.sorted;
  }

  -- A loop over dependencies, each of which the search visits.
  each-Visits :
      (nodes : List ℕ) (fuel : ℕ) (ds grey : List ℕ) (s : Flat)
      → Search nodes fuel
      → Within ds nodes
      → unvisited nodes s.visited < fuel
      → ((g d : ℕ) → elem_of g grey ≡ true → elem_of d ds ≡ true → Leads deps g d)
      → Inv grey s
      → (r : Flat) × ((flatten_each (flatten_from deps fuel) ds s ≡ some r) × Visits grey ds s r)
  unfolding flatten_each elem_of Search
  each-Visits nodes fuel [] grey s search known enough leads i =
      (s, (refl, record { inv = i; grown = λ x m. m; kept = λ x m. m; there = λ x m. absurd (cc) }))
  each-Visits nodes fuel (d ∷ ds) grey s search known enough leads i =
      let (r, (e, v)) =
        search d grey s (known d (ground arith)) enough (λ g m. leads g d m (ground arith)) i in
      let fewer = unvisited_mono nodes s.visited r.visited v.grown in
      let (q, (e', w)) =
        each-Visits nodes fuel ds grey r search (λ x m. known x (ground arith)) (omega arith)
          (λ g x m n. leads g x m (ground arith)) v.inv in
      (
        q,
        (
          rw (e, flatten_each) e',
          record {
            inv = w.inv;
            grown = λ x m. w.grown x (v.grown x m);
            kept = λ x m. w.kept x (v.kept x m);
            there = λ x m. elim (Bool-cases (d == x)) [
              | inl same ↦ w.kept x (v.there x (ground arith))
              | inr other ↦ w.there x (ground arith)
            ];
          },
        ),
      )

  module _ (nodes : List ℕ) (closed : (v : ℕ) → elem_of v nodes ≡ true → Within (deps v) nodes)
      (acyclic : (v : ℕ) → Leads deps v v → ⊥) where
    -- A subsystem that was visited before is listed, since no path leads back to an open one.
    old-Visits :
        (v : ℕ) (grey : List ℕ) (s : Flat)
        → elem_of v s.visited ≡ true
        → ((g : ℕ) → elem_of g grey ≡ true → Leads deps g v)
        → Inv grey s
        → Visits grey (v ∷ []) s s
    unfolding elem_of
    old-Visits v grey s old leads i = record {
      inv = i;
      grown = λ x m. m;
      kept = λ x m. m;
      there = λ x m.
          let same : v ≡ x = ground arith in
          elim (i.parted v old) [
            | inl listed ↦ rw same at listed
            | inr open_one ↦ absurd (acyclic v (leads v open_one))
          ];
    }

    open-Leads :
        (v : ℕ) (grey : List ℕ)
        → ((g : ℕ) → elem_of g grey ≡ true → Leads deps g v)
        → (g d : ℕ) → elem_of g (v ∷ grey) ≡ true
        → elem_of d (deps v) ≡ true
        → Leads deps g d
    unfolding elem_of
    open-Leads v grey leads g d m n = elim (Bool-cases (v == g)) [
      | inl same ↦ let e : v ≡ g = ground arith in edge (rw e at n)
      | inr other ↦ onward (leads g (ground arith)) n
    ]

    search : (fuel : ℕ) → Search nodes fuel
    unfolding Search flatten_from elem_of
    search zero v grey s known enough leads i = absurd (omega arith)
    search (suc fuel) v grey s known enough leads i = elim (Bool-cases (elem_of v s.visited)) [
      | inl old ↦ (s, (rw (old, flatten_from) refl, old-Visits v grey s old leads i))
      | inr new ↦
          let opened : Flat = record { visited = v ∷ s.visited; vec = s.vec } in
          let fewer = unvisited-visit v nodes s.visited known new in
          let (t, (e, w)) =
            each-Visits nodes fuel (deps v) (v ∷ grey) opened (search fuel) (closed v known)
              (omega arith) (open-Leads v grey leads) (Inv-open v grey s new i) in
          (
            record { visited = t.visited; vec = t.vec ++ v ∷ [] },
            (
              rw (new, e, flatten_from) refl,
              record {
                inv =
                    Inv-close v grey t (ground (arith, Bool-cases (elem_of v grey), i.open_ones v))
                      w.there w.inv;
                grown = λ x m. w.grown x (ground arith);
                kept = λ x m. ground (arith, w.kept x, elem_of-append x t.vec (v ∷ []));
                there = λ x m. ground (arith, elem_of-append x t.vec (v ∷ []));
              },
            ),
          )
    ]

    Inv-start : Inv [] (record { visited = []; vec = [] })
    unfolding elem_of
    Inv-start = record {
      parted = λ x m. absurd (cc);
      listed = λ x m. m;
      open_ones = λ x m. m;
      apart = λ x m. refl;
      sorted = tt;
    }

    pub flatten_graph-Follows :
        (fuel : ℕ) (interfaces : List ℕ)
        → Within interfaces nodes
        → unvisited nodes [] < fuel
        → (r : Flat) × ((flatten_graph deps fuel interfaces ≡ some r)
            × (Within interfaces r.vec × Follows deps [] r.vec))
    unfolding flatten_graph elem_of
    flatten_graph-Follows fuel interfaces known enough =
        let (r, (e, v)) =
          each-Visits nodes fuel interfaces [] (record { visited = []; vec = [] }) (search fuel)
            known enough (λ g d m n. absurd (cc)) Inv-start in
        (r, (e, (v.there, v.inv.sorted)))
