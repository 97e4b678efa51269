-- ===== src/Flight/Linked/Graphs.antt =====
-- flight/flight_director.cc: the subsystems of all the graphs that are loaded without an error.
use mathlib.Core.Path.{subst}
use adastra.Prelude.{
  ℕ, ◌≡◌, refl, sym, some, List, [], ◌∷◌, ◌++◌, ◌==◌, elem_of, arith, lookup-insert, if◌then◌else◌,
  Bool-cases, Option-cases, inl, inr,
}
use adastra.Flight.Result.{ok, for_each, >>=-eq-ok, for_each_inv, Result-cases}
use adastra.Flight.Director.{
  Subsystem, Director, find_subsystem, put_subsystem, add_compute, add_global_variable,
}
use adastra.Flight.Load.{SubsystemProto, SubsystemGraph, ComputeProto, VariableProto}
use adastra.Flight.Load.Processes.{load_into}
use adastra.Flight.Load.Graphs.{
  blank, preload_subsystem, preload_graph, load_compute, load_variable, load_subsystem,
  load_interface, load_autostart, load_graph, load_all,
}
use adastra.Flight.Linked.{IsKnown, IsWell, IsLinked, elem_of-snoc}
use adastra.Flight.Linked.Steps.{load_into-IsWell}

find-put :
    (name x : ℕ) (s : Subsystem) (d : Director)
    → find_subsystem x (put_subsystem name s d) ≡ (if name == x then some s else find_subsystem x d)
unfolding find_subsystem
find-put name x s d = lookup-insert name x s d.subsystems

IsKnown-put :
    (name x : ℕ) (s : Subsystem) (d : Director) → IsKnown d x → IsKnown (put_subsystem name s d) x
IsKnown-put name x s d (z, found) = elim (Bool-cases (name == x)) [
  | inl same ↦ (s, rw (find-put name x s d, same) refl)
  | inr other ↦ (z, rw (find-put name x s d, other) found)
]

IsWell-mono :
    (d e : Director) (s : Subsystem)
    → ((x : ℕ) → IsKnown d x → IsKnown e x)
    → IsWell d s
    → IsWell e s
IsWell-mono d e s more w = record {
  deps_known = λ x m. more x (w.deps_known x m);
  deps_distinct = w.deps_distinct;
  processes_distinct = w.processes_distinct;
  enabled = w.enabled;
}

put-IsLinked :
    (name : ℕ) (s : Subsystem) (d : Director)
    → IsWell d s
    → IsLinked d
    → IsLinked (put_subsystem name s d)
put-IsLinked name s d w l =
    let e = put_subsystem name s d in
    record {
      subsystems_well = λ x t h. elim (Bool-cases (name == x)) [
        | inl same ↦
            let q : some s ≡ some t = rw (find-put name x s d, same) at h in
            let r : s ≡ t = cc in
            subst (λ (u : Subsystem). IsWell e u) r
              (IsWell-mono d e s (λ y k. IsKnown-put name y s d k) w)
        | inr other ↦
            IsWell-mono d e t (λ y k. IsKnown-put name y s d k)
              (l.subsystems_well x t (rw (find-put name x s d, other) at h))
      ];
      interfaces_known = λ x m. IsKnown-put name x s d (l.interfaces_known x m);
    }

-- A change of anything but the subsystems and the interfaces.
same-IsLinked :
    (d e : Director)
    → d.subsystems ≡ e.subsystems
    → d.interfaces ≡ e.interfaces
    → IsLinked d
    → IsLinked e
unfolding find_subsystem
same-IsLinked d e p q l = record {
  subsystems_well = λ x t h.
      IsWell-mono d e t (λ y k. (k.0, rw p at k.1)) (l.subsystems_well x t (rw (sym p) at h));
  interfaces_known = λ x m. let k = l.interfaces_known x (rw (sym q) at m) in (k.0, rw p at k.1);
}

preload_subsystem-IsLinked :
    (p : SubsystemProto) (d e : Director) → IsLinked d → preload_subsystem p d ≡ ok e → IsLinked e
unfolding preload_subsystem elem_of
preload_subsystem-IsLinked p d e l h = elim (Option-cases (find_subsystem p.name d)) [
  | inr (s, found) ↦ absurd (cc (rw (found, preload_subsystem) at h))
  | inl new ↦
      let q : put_subsystem p.name blank d ≡ e = cc (rw (new, preload_subsystem) at h) in
      let w : IsWell d blank = record {
        deps_known = λ x m. absurd (cc);
        deps_distinct = refl;
        processes_distinct = refl;
        enabled = refl;
      } in
      subst IsLinked q (put-IsLinked p.name blank d w l)
]

load_compute-IsLinked :
    (c : ComputeProto) (d e : Director) → IsLinked d → load_compute c d ≡ ok e → IsLinked e
unfolding load_compute add_compute
load_compute-IsLinked c d e l h = same-IsLinked d e (ground arith) (ground arith) l

load_variable-IsLinked :
    (v : VariableProto) (d e : Director) → IsLinked d → load_variable v d ≡ ok e → IsLinked e
unfolding load_variable add_global_variable
load_variable-IsLinked v d e l h = same-IsLinked d e (ground arith) (ground arith) l

load_subsystem-IsLinked :
    (p : SubsystemProto) (d e : Director) → IsLinked d → load_subsystem p d ≡ ok e → IsLinked e
unfolding load_subsystem
load_subsystem-IsLinked p d e l h = elim (Option-cases (find_subsystem p.name d)) [
  | inl missing ↦ absurd (cc (rw (missing, load_subsystem) at h))
  | inr (s, found) ↦ elim (Result-cases (load_into d p s)) [
    | inl (error, failed) ↦ absurd (cc (rw (found, failed, load_subsystem) at h))
    | inr (t, done) ↦
        let q : put_subsystem p.name t d ≡ e = cc (rw (found, done, load_subsystem) at h) in
        let w = load_into-IsWell d p s t (l.subsystems_well p.name s found) done in
        subst IsLinked q (put-IsLinked p.name t d w l)
  ]
]

load_interface-IsLinked :
    (name : ℕ) (d e : Director) → IsLinked d → load_interface name d ≡ ok e → IsLinked e
unfolding load_interface find_subsystem
load_interface-IsLinked name d e l h = elim (Option-cases (find_subsystem name d)) [
  | inl missing ↦ absurd (cc (rw (missing, load_interface) at h))
  | inr (s, found) ↦ elim (Bool-cases (elem_of name d.interfaces)) [
    | inl old ↦ absurd (cc (rw (found, old, load_interface) at h))
    | inr new ↦
        let t : Director = record d { interfaces = d.interfaces ++ name ∷ [] } in
        let q : t ≡ e = cc (rw (found, new, load_interface) at h) in
        subst IsLinked q (record {
          subsystems_well = λ x u k. IsWell-mono d t u (λ y z. z) (l.subsystems_well x u k);
          interfaces_known = λ x m. elim (Bool-cases (name == x)) [
            | inl same ↦ let r : name ≡ x = ground arith in (s, rw r at found)
            | inr other ↦ l.interfaces_known x (ground (arith, elem_of-snoc x d.interfaces name))
          ];
        })
  ]
]

load_autostart-IsLinked :
    (name : ℕ) (d e : Director) → IsLinked d → load_autostart name d ≡ ok e → IsLinked e
unfolding load_autostart
load_autostart-IsLinked name d e l h = same-IsLinked d e (ground arith) (ground arith) l

load_graph-IsLinked :
    (g : SubsystemGraph) (d e : Director) → IsLinked d → load_graph g d ≡ ok e → IsLinked e
unfolding load_graph
load_graph-IsLinked g d e l h =
    let (d1, (e1, h1)) = >>=-eq-ok (for_each load_compute g.compute d) _ h in
    let (d2, (e2, h2)) = >>=-eq-ok (for_each load_variable g.var d1) _ h1 in
    let (d3, (e3, h3)) = >>=-eq-ok (for_each load_subsystem g.subsystem d2) _ h2 in
    let (d4, (e4, h4)) = >>=-eq-ok (for_each load_interface g.interface d3) _ h3 in
    let l1 = for_each_inv IsLinked load_compute load_compute-IsLinked g.compute d d1 l e1 in
    let l2 = for_each_inv IsLinked load_variable load_variable-IsLinked g.var d1 d2 l1 e2 in
    let l3 = for_each_inv IsLinked load_subsystem load_subsystem-IsLinked g.subsystem d2 d3 l2 e3 in
    let l4 = for_each_inv IsLinked load_interface load_interface-IsLinked g.interface d3 d4 l3 e4 in
    for_each_inv IsLinked load_autostart load_autostart-IsLinked g.autostart d4 e l4 h4

preload_graph-IsLinked :
    (g : SubsystemGraph) (d e : Director) → IsLinked d → preload_graph g d ≡ ok e → IsLinked e
unfolding preload_graph
preload_graph-IsLinked g d e l h =
    for_each_inv IsLinked preload_subsystem preload_subsystem-IsLinked g.subsystem d e l h

-- After graphs are loaded without an error into a well-formed flight director, every dependency of
-- a subsystem, those that were added for zygotes and for subspace too, is a loaded subsystem and
-- stands once, the processes of a subsystem have different names, no subsystem is disabled, and
-- every interface is a loaded subsystem.
pub load_all-IsLinked :
    (graphs : List SubsystemGraph) (d e : Director)
    → IsLinked d
    → load_all graphs d ≡ ok e
    → IsLinked e
unfolding load_all
load_all-IsLinked graphs d e l h =
    let (preloaded, (e1, h1)) = >>=-eq-ok (for_each preload_graph graphs d) _ h in
    for_each_inv IsLinked load_graph load_graph-IsLinked graphs preloaded e
      (for_each_inv IsLinked preload_graph preload_graph-IsLinked graphs d preloaded l e1) h1
