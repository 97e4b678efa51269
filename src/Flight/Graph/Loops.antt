-- ===== src/Flight/Graph/Loops.antt =====
-- flight/flight_director.cc: CheckForSubsystemLoops finds a loop exactly if there is one.
use adastra.Prelude.{
  ℕ, zero, suc, ◌<◌, ◌≡◌, refl, true, false, List, [], ◌∷◌, ◌++◌, Option, some, ◌==◌, elem_of,
  arith, Bool-cases, inl, inr, ◌⊎◌,
}
use adastra.Flight.Graph.{
  Check, clear, looped, check_each, check_from, check_root, check_for_subsystem_loops,
}
use adastra.Flight.Graph.Paths.{
  Leads, edge, onward, Within, unvisited, unvisited_mono, unvisited-visit,
}

module _ (deps : ℕ → List ℕ) (root : ℕ) where
  -- What is visited and not open has all its dependencies visited, and the root is not among it.
  record Shut (grey visited : List ℕ) : Type 0 where
    inner : (x : ℕ) → elem_of x visited ≡ true → elem_of x grey ≡ false → Within (deps x) visited
    rootless : elem_of root visited ≡ false

  record Passes (grey ds visited more : List ℕ) : Type 0 where
    shut : Shut grey more
    grown : Within visited more
    there : Within ds more

  -- The search passes, or there is a loop.
  Checks : List ℕ → List ℕ → List ℕ → Option Check → Type 0
  Checks grey ds visited c =
      ((more : List ℕ) × ((c ≡ some (clear more)) × Passes grey ds visited more))
      ⊎ ((path : List ℕ) × ((c ≡ some (looped path)) × Leads deps root root))

  Search : List ℕ → ℕ → Type 0
  Search nodes fuel =
      (path : List ℕ) (v : ℕ) (grey visited : List ℕ)
      → elem_of v nodes ≡ true
      → unvisited nodes visited < fuel
      → Leads deps root v
      → Within grey visited
      → Shut grey visited
      → Checks grey (v ∷ []) visited (check_from deps fuel root path v visited)

  each-Checks :
      (nodes : List ℕ) (fuel : ℕ) (path ds grey visited : List ℕ)
      → Search nodes fuel
      → Within ds nodes
      → unvisited nodes visited < fuel
      → ((d : ℕ) → elem_of d ds ≡ true → Leads deps root d)
      → Within grey visited
      → Shut grey visited
      → Checks grey ds visited (check_each (check_from deps fuel root path) ds visited)
  unfolding check_each elem_of Search Checks
  each-Checks nodes fuel path [] grey visited search known enough leads g i =
      inl (visited, (refl, record { shut = i; grown = λ x m. m; there = λ x m. absurd (cc) }))
  each-Checks nodes fuel path (d ∷ ds) grey visited search known enough leads g i =
      elim (search path d grey visited (known d (ground arith)) enough (leads d (ground arith)) g
        i) [
          | inr (p, (e, found)) ↦ inr (p, (rw (e, check_each) refl, found))
          | inl (more, (e, v)) ↦
              let fewer = unvisited_mono nodes visited more v.grown in
              elim (each-Checks nodes fuel path ds grey more search (λ x m. known x (ground arith))
                (omega arith) (λ x m. leads x (ground arith)) (λ x m. v.grown x (g x m)) v.shut) [
                  | inr (p, (e', found)) ↦ inr (p, (rw (e, check_each) e', found))
                  | inl (last, (e', w)) ↦ inl (
                    last,
                    (
                      rw (e, check_each) e',
                      record {
                        shut = w.shut;
                        grown = λ x m. w.grown x (v.grown x m);
                        there = λ x m. elim (Bool-cases (d == x)) [
                          | inl same ↦ w.grown x (v.there x (ground arith))
                          | inr other ↦ w.there x (ground arith)
                        ];
                      },
                    ),
                  )
                ]
        ]

  Shut-open :
      (v : ℕ) (grey visited : List ℕ)
      → (v == root) ≡ false
      → Shut grey visited
      → Shut (v ∷ grey) (v ∷ visited)
  unfolding elem_of
  Shut-open v grey visited other i = record {
    inner = λ x m n d k. ground (arith, i.inner x (ground arith) (ground arith) d k);
    rootless = ground (arith, i.rootless);
  }

  Shut-close :
      (v : ℕ) (grey visited : List ℕ)
      → Within (deps v) visited
      → Shut (v ∷ grey) visited
      → Shut grey visited
  unfolding elem_of
  Shut-close v grey visited ready i = record {
    inner = λ x m n. elim (Bool-cases (v == x)) [
      | inl same ↦ let e : v ≡ x = ground arith in rw e at ready
      | inr other ↦ i.inner x m (ground arith)
    ];
    rootless = i.rootless;
  }

  module _ (nodes : List ℕ)
      (closed : (v : ℕ) → elem_of v nodes ≡ true → Within (deps v) nodes) where
    search : (fuel : ℕ) → Search nodes fuel
    unfolding Search Checks check_from elem_of
    search zero path v grey visited known enough leads g i = absurd (omega arith)
    search (suc fuel) path v grey visited known enough leads g i =
        elim (Bool-cases (elem_of v visited)) [
          | inl old ↦ inl (
            visited,
            (
              rw (old, check_from) refl,
              record {
                shut = i;
                grown = λ x m. m;
                there = λ x m. let same : v ≡ x = ground arith in rw same at old;
              },
            ),
          )
          | inr new ↦ elim (Bool-cases (v == root)) [
            | inl same ↦
                let e : v ≡ root = ground arith in
                inr (path ++ v ∷ [], (rw (new, same, check_from) refl, rw e at leads))
            | inr other ↦
                let fewer = unvisited-visit v nodes visited known new in
                let further = path ++ v ∷ [] in
                elim (each-Checks nodes fuel further (deps v) (v ∷ grey) (v ∷ visited) (search fuel)
                  (closed v known) (omega arith) (λ d n. onward leads n)
                  (λ x m. ground (arith, g x)) (Shut-open v grey visited other i)) [
                    | inr (p, (e, found)) ↦ inr (p, (rw (new, other, check_from) e, found))
                    | inl (more, (e, w)) ↦ inl (
                      more,
                      (
                        rw (new, other, check_from) e,
                        record {
                          shut = Shut-close v grey more w.there w.shut;
                          grown = λ x m. w.grown x (ground arith);
                          there = λ x m. w.grown x (ground arith);
                        },
                      ),
                    )
                  ]
          ]
        ]

    -- All that the root leads to is visited, and the root is not.
    clear-acyclic :
        (visited : List ℕ) → Shut [] visited → Within (deps root) visited → Leads deps root root → ⊥
    unfolding elem_of
    clear-acyclic visited i start back = cc (reached root back, i.rootless)
      where
        reached : (x : ℕ) → Leads deps root x → elem_of x visited ≡ true
        reached x (edge m) = start x m
        reached x (onward {d} way m) = i.inner d (reached d way) refl x m

    pub check_root-decides :
        (fuel : ℕ)
        → elem_of root nodes ≡ true
        → unvisited nodes [] < fuel
        → ((more : List ℕ) × ((check_root deps fuel root ≡ some (clear more))
              × (Leads deps root root → ⊥)))
          ⊎ ((path : List ℕ) × ((check_root deps fuel root ≡ some (looped path))
                × Leads deps root root))
    unfolding check_root elem_of Checks
    check_root-decides fuel known enough =
        elim (each-Checks nodes fuel (root ∷ []) (deps root) [] [] (search fuel) (closed root known)
          enough (λ d m. edge m) (λ x m. m)
          (record { inner = λ x m. absurd (cc); rootless = refl })) [
            | inl (more, (e, w)) ↦ inl (more, (e, clear-acyclic more w.shut w.there))
            | inr (p, (e, found)) ↦ inr (p, (e, found))
          ]

module _ (deps : ℕ → List ℕ) (nodes : List ℕ)
    (closed : (v : ℕ) → elem_of v nodes ≡ true → Within (deps v) nodes) where
  pub check-decides :
      (fuel : ℕ) (vs : List ℕ)
      → Within vs nodes
      → unvisited nodes [] < fuel
      → ((more : List ℕ) × ((check_for_subsystem_loops deps fuel vs ≡ some (clear more))
            × ((v : ℕ) → elem_of v vs ≡ true → Leads deps v v → ⊥)))
        ⊎ ((path : List ℕ) × ((check_for_subsystem_loops deps fuel vs ≡ some (looped path))
              × ((v : ℕ) × ((elem_of v vs ≡ true) × Leads deps v v))))
  unfolding check_for_subsystem_loops elem_of
  check-decides fuel [] known enough = inl ([], (refl, λ v m. absurd (cc)))
  check-decides fuel (v ∷ vs) known enough =
      elim (check_root-decides deps v nodes closed fuel (known v (ground arith)) enough) [
        | inr (p, (e, found)) ↦
            inr (p, (rw (e, check_for_subsystem_loops) refl, (v, (ground arith, found))))
        | inl (more, (e, free)) ↦
            elim (check-decides fuel vs (λ x m. known x (ground arith)) enough) [
              | inr (p, (e', (x, (m, found)))) ↦
                  inr (p, (rw (e, check_for_subsystem_loops) e', (x, (ground arith, found))))
              | inl (last, (e', rest)) ↦ inl (
                last,
                (
                  rw (e, check_for_subsystem_loops) e',
                  λ x m. elim (Bool-cases (v == x)) [
                    | inl same ↦ let q : v ≡ x = ground arith in rw q at free
                    | inr other ↦ rest x (ground arith)
                  ],
                ),
              )
            ]
      ]
