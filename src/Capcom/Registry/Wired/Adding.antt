-- ===== src/Capcom/Registry/Wired/Adding.antt =====
-- capcom/client_handler.cc, HandleAddSubsystem: what it does to the registered subsystems.
use adastra.Prelude.{
  ℕ, suc, ◌≡◌, refl, sym, ◌∙◌, true, false, Option, some, List, [], ◌∷◌, ◌==◌, if◌then◌else◌, arith,
  lookup, insert, lookup-insert, Bool-cases, Option-cases, inl, inr, All,
}
use adastra.Capcom.Subsystem.{Subsystem}
use adastra.Capcom.Machine.{enter_state}
use adastra.Capcom.Lifecycle.{run}
use adastra.Capcom.Registry.{Object, Registry, modify_object, find_subsystem, add_subsystem}
use adastra.Capcom.Registry.Building.{
  known, find_children, all_streams_read, built, refused, build_processes, link_children,
  register_subsystem, build_subsystem, handle_add_subsystem,
}
use adastra.Capcom.Registry.Messages.{
  AddSubsystemRequest, AddError, is_unknown_child, new_subsystem,
}
use adastra.Capcom.Registry.Views.{Shape, Wired, Wired-ext, Wired-new, stands}
use adastra.Capcom.Registry.Wired.{
  shape_of, shape_at, name_at, IsWired, Alike, Alike-IsWired, modify-Alike,
}
use adastra.Capcom.Registry.Wired.Building.{SameLinks, build_processes-Builds, Built-cases}
use adastra.Capcom.Registry.Wired.Linking.{IsOlder, All-map, Children-cases, link_children-IsWired}

run-Alike : (a : ℕ) (r : Registry) → Alike r (modify_object a run r)
unfolding run enter_state
run-Alike a r = modify-Alike a run r (λ s. ground arith) (λ s. ground arith)

find_children-IsOlder :
    (names : List ℕ) (r : Registry) (cs : List ℕ)
    → IsWired r
    → find_children names r ≡ known cs
    → All (IsOlder r r.next) cs
unfolding find_children
find_children-IsOlder [] r cs w h = let e : cs ≡ [] = ground arith in rw e tt
find_children-IsOlder (n ∷ ns) r cs w h = elim (Option-cases (find_subsystem n r)) [
  | inl missing ↦ absurd (cc (rw (missing, find_children) at h))
  | inr (c, found) ↦ elim (Children-cases (find_children ns r)) [
    | inl (m, unseen) ↦ absurd (cc (rw (found, unseen, find_children) at h))
    | inr (rest, seen) ↦
        let e : c ∷ rest ≡ cs = cc (rw (found, seen, find_children) at h) in
        let (s, (at_c, q)) = w.named n c found in
        rw (sym e) ((w.fresh c s at_c, (s, at_c)), find_children-IsOlder ns r rest w seen)
  ]
]

-- The address after the last one that is given out.
abbrev pub after_next : Registry → Registry
after_next r = record r { next = suc r.next }

Wired-after :
    (next : ℕ) (names : ℕ → Option ℕ) (view : ℕ → Option Shape)
    → Wired next names view
    → Wired (suc next) names view
Wired-after next names view w = record {
  fresh = λ x s h. omega (arith, w.fresh x s h);
  named = w.named;
  older = w.older;
  known = w.known;
  linked = w.linked;
}

built-IsWired : (r q : Registry) → IsWired r → Alike (after_next r) q → IsWired q
unfolding find_subsystem
built-IsWired r q w alike =
    Alike-IsWired (after_next r) q alike (Wired-after r.next (name_at r) (shape_at r) w)

-- A subsystem without links that is stored at the next address, under a free name.
abbrev pub store : ℕ → Subsystem → Registry → Registry
store name s q = record q {
  subsystems = insert name s.this q.subsystems;
  objects = insert s.this (record { name = name; sub = s }) q.objects;
}

store-IsWired :
    (r q : Registry) (name : ℕ) (s : Subsystem)
    → IsWired r
    → Alike (after_next r) q
    → s.this ≡ r.next
    → s.children ≡ []
    → s.parents ≡ []
    → IsWired (store name s q)
unfolding find_subsystem
store-IsWired r q name s w alike here no_children no_parents =
    let view = λ (x : ℕ). if r.next == x then some (stands name) else shape_at r x in
    let names = λ (m : ℕ). if name == m then some r.next else name_at r m in
    rw (sym alike.next) (
      Wired-ext (suc r.next) names (name_at (store name s q)) view (shape_at (store name s q))
        (λ n x h.
          rw (sym here, alike.subsystems) (rw (lookup-insert name n s.this q.subsystems) at h))
        (λ x.
          rw (lookup-insert s.this x (record { name = name; sub = s }) q.objects, here)
            (elim (Bool-cases (r.next == x)) [
              | inl same ↦ rw same (cc (no_children, no_parents))
              | inr other ↦ rw other (alike.shapes x)
            ]))
        (Wired-new r.next r.next name (name_at r) (shape_at r) (omega arith) w))

stored-old :
    (r q : Registry) (name : ℕ) (s : Subsystem) (d : ℕ)
    → Alike (after_next r) q
    → s.this ≡ r.next
    → IsOlder r r.next d
    → IsOlder (store name s q) s.this d
stored-old r q name s d alike here (below, (t, at_d)) =
    let other : (s.this == d) ≡ false = ground arith in
    (
      omega arith,
      (
        t,
        rw (lookup-insert s.this d (record { name = name; sub = s }) q.objects, other)
            (sym (alike.shapes d) ∙ at_d),
      ),
    )

stored-new :
    (q : Registry) (name : ℕ) (s : Subsystem)
    → (u : Shape) × (shape_at (store name s q) s.this ≡ some u)
stored-new q name s =
    let o : Object = record { name = name; sub = s } in
    let itself : (s.this == s.this) ≡ true = ground arith in
    (shape_of o, rw (lookup-insert s.this s.this o q.objects, itself) refl)

register-IsWired :
    (req : AddSubsystemRequest) (cs : List ℕ) (r q : Registry) (s : Subsystem)
    → IsWired r
    → All (IsOlder r r.next) cs
    → SameLinks (new_subsystem r.next req) s
    → Alike (after_next r) q
    → IsWired (register_subsystem req cs s q).0
unfolding register_subsystem add_subsystem
register-IsWired req cs r q s w older same alike =
    elim (Option-cases (lookup req.name q.subsystems)) [
      | inr (a, taken) ↦ rw (taken, register_subsystem, add_subsystem) (built-IsWired r q w alike)
      | inl free ↦
          let stored = store req.name s q in
          let here : s.this ≡ r.next = sym same.this in
          let wired =
            store-IsWired r q req.name s w alike here (sym same.children) (sym same.parents) in
          let at_a : (u : Shape) × (shape_at stored s.this ≡ some u) = stored-new q req.name s in
          let linked =
            link_children-IsWired s.this cs stored wired
              (All-map cs (λ d k. stored-old r q req.name s d alike here k) older) at_a in
          rw (free, register_subsystem, add_subsystem)
            (Alike-IsWired (link_children s.this cs stored) _
              (run-Alike s.this (link_children s.this cs stored)) linked)
    ]

pub Builds-built :
    (req : AddSubsystemRequest) (r q : Registry) (t : Subsystem)
    → build_processes req.processes (new_subsystem r.next req) (after_next r) ≡ built t q
    → SameLinks (new_subsystem r.next req) t × Alike (after_next r) q
Builds-built req r q t e =
    rw e at (build_processes-Builds req.processes (new_subsystem r.next req) (after_next r))

pub Builds-refused :
    (req : AddSubsystemRequest) (r q : Registry) (e : AddError)
    → build_processes req.processes (new_subsystem r.next req) (after_next r) ≡ refused e q
    → (is_unknown_child e ≡ false) × Alike (after_next r) q
Builds-refused req r q e h =
    rw h at (build_processes-Builds req.processes (new_subsystem r.next req) (after_next r))

build_subsystem-IsWired :
    (req : AddSubsystemRequest) (cs : List ℕ) (r : Registry)
    → IsWired r
    → All (IsOlder r r.next) cs
    → IsWired (build_subsystem req cs r).0
unfolding build_subsystem
build_subsystem-IsWired req cs r w older = elim (Bool-cases (all_streams_read req.streams)) [
  | inr bad ↦ rw (bad, build_subsystem) w
  | inl good ↦
      elim (Built-cases (build_processes req.processes (new_subsystem r.next req) (after_next r))) [
        | inl (e, (q, failed)) ↦
            rw (good, failed, build_subsystem)
              (built-IsWired r q w (Builds-refused req r q e failed).1)
        | inr (t, (q, done)) ↦
            let (same, alike) = Builds-built req r q t done in
            rw (good, done, build_subsystem) (register-IsWired req cs r q t w older same alike)
      ]
]

pub handle_add_subsystem-IsWired :
    (req : AddSubsystemRequest) (r : Registry) → IsWired r → IsWired (handle_add_subsystem req r).0
unfolding handle_add_subsystem
handle_add_subsystem-IsWired req r w = elim (Children-cases (find_children req.children r)) [
  | inl (n, missing) ↦ rw (missing, handle_add_subsystem) w
  | inr (cs, found) ↦
      rw (found, handle_add_subsystem)
        (build_subsystem-IsWired req cs r w (find_children-IsOlder req.children r cs w found))
]
