-- ===== src/Flight/Linked/Steps.antt =====
-- flight/flight_director.cc: each step of loading one subsystem keeps it well formed.
use adastra.Prelude.{
  ℕ, ◌≡◌, refl, Bool, true, false, ◌&&◌, List, [], ◌∷◌, ◌++◌, ◌==◌, elem_of, arith, if◌then◌else◌,
  Bool-cases, Option-cases, inl, inr, ltb, ◌+◌, ◌≤◌,
}
use adastra.Flight.Result.{
  LoadError, ok, err, for_each, >>=-eq-ok, for_each_inv, process_exists, zygote_exists,
  module_exists, streams_of_interactive, interactive_zygote, no_such_zygote,
}
use adastra.Flight.Director.{Process, Subsystem, Director, find_subsystem}
use adastra.Flight.Load.{StaticProcessProto, ModuleProto, SubsystemProto}
use adastra.Flight.Load.Processes.{
  has_process, push_process, add_static_process, add_zygote, add_module, add_dep, link_dep,
  subspace, has_modules, link_subspace, set_options, check_interactive, load_into, parse_options,
  static_process_of, has_streams, zygote_of, module_of,
}
use adastra.Flight.Linked.{process_names, IsKnown, IsWell, distinct-snoc, names-snoc, elem_of-snoc}

has_process-elem_of :
    (name : ℕ) (ps : List Process) → has_process name ps ≡ elem_of name (process_names ps)
unfolding has_process elem_of
has_process-elem_of name [] = refl
has_process-elem_of name (p ∷ ps) = ground (arith, has_process-elem_of name ps)

module _ (d : Director) where
  push-IsWell :
      (p : Process) (s : Subsystem)
      → has_process p.name s.processes ≡ false
      → IsWell d s
      → IsWell d (push_process p s)
  push-IsWell p s new w = record {
    deps_known = w.deps_known;
    deps_distinct = w.deps_distinct;
    processes_distinct = rw (names-snoc s.processes p) (
        distinct-snoc (process_names s.processes) p.name
          (cc (new, has_process-elem_of p.name s.processes)) w.processes_distinct);
    enabled = w.enabled;
  }

  -- A dependency that is known and was not there.
  dep-IsWell :
      (x : ℕ) (s : Subsystem)
      → IsKnown d x
      → elem_of x s.deps ≡ false
      → IsWell d s
      → IsWell d (record s { deps = s.deps ++ x ∷ [] })
  dep-IsWell x s known new w = record {
    deps_known = λ y m. elim (Bool-cases (x == y)) [
      | inl same ↦ let e : x ≡ y = ground arith in rw e at known
      | inr other ↦ w.deps_known y (ground (arith, elem_of-snoc y s.deps x))
    ];
    deps_distinct = distinct-snoc s.deps x new w.deps_distinct;
    processes_distinct = w.processes_distinct;
    enabled = w.enabled;
  }

  add_dep-IsWell : (x : ℕ) (s : Subsystem) → IsKnown d x → IsWell d s → IsWell d (add_dep x s)
  add_dep-IsWell x s known w = elim (Bool-cases (elem_of x s.deps)) [
    | inl old ↦ rw old w
    | inr new ↦ rw new (dep-IsWell x s known new w)
  ]

  link_dep-IsWell :
      (name x : ℕ) (s t : Subsystem) → IsWell d s → link_dep d name x s ≡ ok t → IsWell d t
  unfolding link_dep
  link_dep-IsWell name x s t w h = elim (Option-cases (find_subsystem x d)) [
    | inl missing ↦ absurd (cc (rw (missing, link_dep) at h))
    | inr (z, found) ↦ elim (Bool-cases (elem_of x s.deps)) [
      | inl old ↦ absurd (cc (rw (found, old, link_dep) at h))
      | inr new ↦
          let e : record s { deps = s.deps ++ x ∷ [] } ≡ t = cc (rw (found, new, link_dep) at h) in
          rw e at (dep-IsWell x s (z, found) new w)
    ]
  ]

  link_subspace-IsWell :
      (p : SubsystemProto) (s : Subsystem) → IsWell d s → IsWell d (link_subspace d p s)
  unfolding link_subspace
  link_subspace-IsWell p s w = elim (Bool-cases (has_modules p.modules)) [
    | inr no_modules ↦ rw (no_modules) w
    | inl modules ↦ elim (Option-cases (find_subsystem subspace d)) [
      | inl missing ↦ rw (modules, missing, link_subspace) w
      | inr (z, found) ↦ rw (modules, found, link_subspace) (add_dep-IsWell subspace s (z, found) w)
    ]
  ]

  -- The guards of the loops over processes: a disabled one is left out, and the errors end it.
  guarded {ℓ} :
      {A : Type ℓ} (P : A → Type 0) (disabled there wrong : Bool) (e e' : LoadError) (s u t : A)
      → P s
      → (there ≡ false → P u)
      → (if disabled then ok s else if there then err e else if wrong then err e' else ok u) ≡ ok t
      → P t
  guarded P true there wrong e e' s u t w next h = let q : s ≡ t = cc in rw q at w
  guarded P false true wrong e e' s u t w next h = absurd (cc)
  guarded P false false true e e' s u t w next h = absurd (cc)
  guarded P false false false e e' s u t w next h = let q : u ≡ t = cc in rw q at (next refl)

  add_zygote-IsWell :
      (name : ℕ) (z : StaticProcessProto) (s t : Subsystem)
      → IsWell d s
      → add_zygote name z s ≡ ok t
      → IsWell d t
  unfolding add_zygote zygote_of parse_options
  add_zygote-IsWell name z s t w h =
      guarded (IsWell d) z.disabled (has_process z.name s.processes) z.interactive
        (zygote_exists z.name name) (interactive_zygote z.name) s (push_process (zygote_of z) s) t w
        (λ new. push-IsWell (zygote_of z) s new w) h

  add_static_process-IsWell :
      (name : ℕ) (p : StaticProcessProto) (s t : Subsystem × ℕ)
      → IsWell d s.0
      → add_static_process name p s ≡ ok t
      → IsWell d t.0
  unfolding add_static_process static_process_of parse_options
  add_static_process-IsWell name p s t w h =
      guarded (λ (r : Subsystem × ℕ). IsWell d r.0) p.disabled (has_process p.name s.0.processes)
        (p.interactive && has_streams p) (process_exists p.name name)
        (streams_of_interactive p.name) s
        (push_process (static_process_of p) s.0, if p.interactive then s.1 + 1 else s.1) t w
        (λ new. push-IsWell (static_process_of p) s.0 new w) h

  add_module-IsWell :
      (name : ℕ) (m : ModuleProto) (s t : Subsystem)
      → IsWell d s
      → add_module d name m s ≡ ok t
      → IsWell d t
  unfolding add_module module_of parse_options
  add_module-IsWell name m s t w h = elim (Option-cases (find_subsystem m.zygote d)) [
    | inl missing ↦
        guarded (IsWell d) m.disabled (has_process m.name s.processes) true
          (module_exists m.name name) (no_such_zygote m.name m.zygote) s s t w (λ new. w)
          (rw (missing, add_module) at h)
    | inr (z, found) ↦
        let linked = add_dep m.zygote s in
        let known = add_dep-IsWell m.zygote s (z, found) w in
        guarded (IsWell d) m.disabled (has_process m.name s.processes) false
          (module_exists m.name name) (no_such_zygote m.name m.zygote) s
          (push_process (module_of m) linked) t w
          (λ new. push-IsWell (module_of m) linked (ground arith) known)
          (rw (found, add_module) at h)
  ]

  set_options-IsWell :
      (p : SubsystemProto) (s : Subsystem) → IsWell d s → IsWell d (set_options p s)
  unfolding set_options
  set_options-IsWell p s w = record {
    deps_known = w.deps_known;
    deps_distinct = w.deps_distinct;
    processes_distinct = w.processes_distinct;
    enabled = w.enabled;
  }

  check_interactive-IsWell :
      (name : ℕ) (s : Subsystem × ℕ) (t : Subsystem)
      → IsWell d s.0
      → check_interactive name s ≡ ok t
      → (IsWell d t) × ((s.0 ≡ t) × (s.1 ≤ 1))
  unfolding check_interactive
  check_interactive-IsWell name s t w h = elim (Bool-cases (ltb 1 s.1)) [
    | inl many ↦ absurd (cc (rw (many, check_interactive) at h))
    | inr few ↦
        let e : s.0 ≡ t = cc (rw (few, check_interactive) at h) in (rw e at w, (e, ground arith))
  ]

  -- One subsystem that is loaded without an error.
  pub load_into-IsWell :
      (p : SubsystemProto) (s t : Subsystem) → IsWell d s → load_into d p s ≡ ok t → IsWell d t
  unfolding load_into
  load_into-IsWell p s t w h =
      let (linked, (e1, h1)) = >>=-eq-ok (for_each (link_dep d p.name) p.dep s) _ h in
      let w1 =
        for_each_inv (IsWell d) (link_dep d p.name) (λ x b c v q. link_dep-IsWell p.name x b c v q)
          p.dep s linked w e1 in
      let ready = set_options p (link_subspace d p linked) in
      let w2 = set_options-IsWell p _ (link_subspace-IsWell p linked w1) in
      let (counted, (e3, h3)) =
        >>=-eq-ok (for_each (add_static_process p.name) p.static_process (ready, 0)) _ h1 in
      let w3 =
        for_each_inv (λ (r : Subsystem × ℕ). IsWell d r.0) (add_static_process p.name)
          (λ x b c v q. add_static_process-IsWell p.name x b c v q) p.static_process (ready, 0)
          counted w2 e3 in
      let (zygotes, (e4, h4)) = >>=-eq-ok (for_each (add_zygote p.name) p.zygote counted.0) _ h3 in
      let w4 =
        for_each_inv (IsWell d) (add_zygote p.name)
          (λ x b c v q. add_zygote-IsWell p.name x b c v q) p.zygote counted.0 zygotes w3 e4 in
      let (modules, (e5, h5)) = >>=-eq-ok (for_each (add_module d p.name) p.modules zygotes) _ h4 in
      let w5 =
        for_each_inv (IsWell d) (add_module d p.name)
          (λ x b c v q. add_module-IsWell p.name x b c v q) p.modules zygotes modules w4 e5 in
      (check_interactive-IsWell p.name (modules, counted.1) t w5 h5).0
