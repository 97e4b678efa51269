-- ===== src/Flight/Graph/Inside.antt =====
-- flight/flight_director.cc: FlattenSubsystemGraph lists subsystems of the graph only.
use adastra.Prelude.{
  ℕ, zero, suc, ◌≡◌, true, some, List, [], ◌∷◌, ◌++◌, elem_of, arith, Bool-cases, Option-cases, inl,
  inr,
}
use adastra.Flight.Graph.{Flat, flatten_each, flatten_from, flatten_graph}
use adastra.Flight.Graph.Paths.{Within, elem_of-append}

module _ (deps : ℕ → List ℕ) (nodes : List ℕ)
    (closed : (v : ℕ) → elem_of v nodes ≡ true → Within (deps v) nodes) where
  -- A search from one subsystem with some fuel.
  abbrev Stays : ℕ → Type 0
  Stays fuel =
      (v : ℕ) (s r : Flat)
      → elem_of v nodes ≡ true
      → Within s.vec nodes
      → flatten_from deps fuel v s ≡ some r
      → Within r.vec nodes

  each-Stays :
      (fuel : ℕ) (ds : List ℕ) (s r : Flat)
      → Stays fuel
      → Within ds nodes
      → Within s.vec nodes
      → flatten_each (flatten_from deps fuel) ds s ≡ some r
      → Within r.vec nodes
  unfolding flatten_each elem_of
  each-Stays fuel [] s r stays known inside h = let e : s ≡ r = cc in rw e at inside
  each-Stays fuel (d ∷ ds) s r stays known inside h =
      elim (Option-cases (flatten_from deps fuel d s)) [
        | inl out ↦ absurd (cc (rw (out, flatten_each) at h))
        | inr (t, step) ↦
            each-Stays fuel ds t r stays (λ x m. known x (ground arith))
              (stays d s t (known d (ground arith)) inside step) (rw (step, flatten_each) at h)
      ]

  from-Stays : (fuel : ℕ) → Stays fuel
  unfolding flatten_from elem_of
  from-Stays zero v s r known inside h = absurd (cc)
  from-Stays (suc fuel) v s r known inside h = elim (Bool-cases (elem_of v s.visited)) [
    | inl old ↦
        let q : some s ≡ some r = rw (old, flatten_from) at h in
        let e : s ≡ r = cc in rw e at inside
    | inr new ↦
        let opened : Flat = record { visited = v ∷ s.visited; vec = s.vec } in
        elim (Option-cases (flatten_each (flatten_from deps fuel) (deps v) opened)) [
          | inl out ↦ absurd (cc (rw (new, out, flatten_from) at h))
          | inr (t, done) ↦
              let q : some (record { visited = t.visited; vec = t.vec ++ v ∷ [] }) ≡ some r =
                rw (new, done, flatten_from) at h in
              let below =
                each-Stays fuel (deps v) opened t (from-Stays fuel) (closed v known) inside done in
              λ x m. ground (arith, below x, elem_of-append x t.vec (v ∷ []))
        ]
  ]

  pub flatten_graph-Within :
      (fuel : ℕ) (interfaces : List ℕ) (r : Flat)
      → Within interfaces nodes
      → flatten_graph deps fuel interfaces ≡ some r
      → Within r.vec nodes
  unfolding flatten_graph elem_of
  flatten_graph-Within fuel interfaces r known h =
      each-Stays fuel interfaces (record { visited = []; vec = [] }) r (from-Stays fuel) known
        (λ x m. absurd (cc)) h
