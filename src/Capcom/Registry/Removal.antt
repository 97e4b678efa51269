-- ===== src/Capcom/Registry/Removal.antt =====
-- capcom/client_handler.cc, HandleRemoveSubsystem, and CheckRemove and Remove of capcom/subsystem.cc.
-- They recurse over the children with fuel: `none` and `Removal.stuck` are runs that are out of it.
use adastra.Prelude.{
  ℕ, zero, suc, Bool, true, false, ◌&&◌, Option, none, some, List, [], ◌∷◌, decr, is_positive, ◌==◌,
  if◌then◌else◌, lookup, insert, erase,
}
use adastra.Capcom.States.{OperState, is_admin_offline}
use adastra.Capcom.Process.{Process, ProcessKind}
use adastra.Capcom.Subsystem.{Subsystem}
use adastra.Capcom.Registry.{
  Object, Registry, find_subsystem, remove_subsystem, remove_zygote, remove_umbilical,
  modify_object,
}

abbrev pub is_oper_offline : OperState → Bool
is_oper_offline OperState.offline = true
is_oper_offline _ = false

-- Subsystem::IsOffline, and the test of CheckRemove.
unfoldable pub is_offline : Subsystem → Bool
is_offline s = is_admin_offline s.admin_state && is_oper_offline s.oper_state

-- The loop of CheckRemove.
unfoldable pub check_children : (ℕ → Option Bool) → List ℕ → Option Bool
check_children check [] = some true
check_children check (c ∷ cs) = elim (check c) [
  | none ↦ none
  | some false ↦ some false
  | some true ↦ check_children check cs
]

abbrev pub children_of : Option Object → List ℕ
children_of none = []
children_of (some o) = o.sub.children

-- Subsystem::CheckRemove at an address.
unfoldable pub check_remove : ℕ → Bool → Registry → ℕ → Option Bool
check_remove zero recursive r a = none
check_remove (suc fuel) recursive r a = elim (lookup a r.objects) [
  | none ↦ none
  | some o ↦
      let children =
        if recursive
        then check_children (check_remove fuel recursive r) o.sub.children
        else some true in
      elim children [ none ↦ none | some false ↦ some false | some true ↦ some (is_offline o.sub) ]
]

pub data RemoveError : Type 0 where
  no_such_zygote no_such_subsystem not_a_parent : ℕ → RemoveError

pub data Removal : Type 0 where
  removed : Registry → Removal
  failed : RemoveError → Registry → Removal
  stuck : Removal

-- Subsystem::RemoveUmbilicalReference on the subsystem at an address.
unfoldable pub remove_umbilical_reference : ℕ → ℕ → Registry → Registry
remove_umbilical_reference a compute r = elim (lookup a r.objects) [
  | none ↦ r
  | some o ↦ elim (lookup compute o.sub.umbilicals) [
    | none ↦ r
    | some u ↦
        let v = record u { static_refs = decr u.static_refs } in
        if is_positive v.static_refs
        then modify_object a (λ s. record s { umbilicals = insert compute v s.umbilicals }) r
        else remove_umbilical compute true
            (modify_object a (λ s. record s { umbilicals = erase compute s.umbilicals }) r)
  ]
]

abbrev pub is_zygote : ProcessKind → Bool
is_zygote ProcessKind.zygote = true
is_zygote _ = false

-- The loop over the processes.
unfoldable pub remove_processes : ℕ → List Process → Registry → Removal
unfolding remove_zygote
remove_processes a [] r = removed r
remove_processes a (p ∷ ps) r = elim (is_zygote p.kind) [
  | true ↦ elim (remove_zygote p.name r).1 [
    | false ↦ failed (RemoveError.no_such_zygote p.name) r
    | true ↦
        remove_processes a ps (remove_umbilical_reference a p.compute (remove_zygote p.name r).0)
  ]
  | false ↦ remove_processes a ps (remove_umbilical_reference a p.compute r)
]

-- RemoveParent erases the first copy, and says whether there was one.
unfoldable pub erase_first : ℕ → List ℕ → List ℕ × Bool
erase_first a [] = ([], false)
erase_first a (x ∷ xs) =
    let rest = erase_first a xs in if x == a then (xs, true) else (x ∷ rest.0, rest.1)

unfoldable pub remove_parent : ℕ → ℕ → Registry → Registry × Bool
remove_parent parent child r = elim (lookup child r.objects) [
  | none ↦ (r, false)
  | some o ↦
      let found = erase_first parent o.sub.parents in
      (modify_object child (λ s. record s { parents = found.0 }) r, found.1)
]

-- The loop over the links to the children.
unfoldable pub unlink_children : ℕ → List ℕ → Registry → Removal
unfolding remove_parent
unlink_children a [] r = removed r
unlink_children a (c ∷ cs) r = elim (remove_parent a c r).1 [
  | false ↦ failed (RemoveError.not_a_parent c) r
  | true ↦ unlink_children a cs (remove_parent a c r).0
]

-- children_.clear() and Stop.
abbrev pub retire : Subsystem → Subsystem
retire s = record s { children = []; running = false }

-- The end of Remove, once the name is free.
unfoldable pub unlink : ℕ → Registry → Removal
unlink a r = elim (unlink_children a (children_of (lookup a r.objects)) r) [
  | stuck ↦ stuck
  | failed e q ↦ failed e q
  | removed q ↦ removed (modify_object a retire q)
]

unfoldable pub unregister : ℕ → Object → Registry → Removal
unfolding remove_subsystem
unregister a o r = elim (remove_subsystem o.name r).1 [
  | false ↦ failed (RemoveError.no_such_subsystem o.name) r
  | true ↦ unlink a (remove_subsystem o.name r).0
]

abbrev pub forget_names : Subsystem → Subsystem
forget_names s = record s { process_map = [] }

-- Remove below the recursive calls.
unfoldable pub remove_one : ℕ → Object → Registry → Removal
remove_one a o r = elim (remove_processes a o.sub.processes (modify_object a forget_names r)) [
  | stuck ↦ stuck
  | failed e q ↦ failed e q
  | removed q ↦ unregister a o q
]

unfoldable pub remove_children : (ℕ → Registry → Removal) → List ℕ → Registry → Removal
remove_children remove [] r = removed r
remove_children remove (c ∷ cs) r = elim (remove c r) [
  | stuck ↦ stuck
  | failed e q ↦ failed e q
  | removed q ↦ remove_children remove cs q
]

-- Subsystem::Remove at an address.
unfoldable pub remove : ℕ → Bool → ℕ → Registry → Removal
remove zero recursive a r = stuck
remove (suc fuel) recursive a r = elim (lookup a r.objects) [
  | none ↦ stuck
  | some o ↦
      let children =
        if recursive then remove_children (remove fuel recursive) o.sub.children r else removed r in
      elim children [
        | stuck ↦ stuck
        | failed e q ↦ failed e q
        | removed q ↦ elim (lookup a q.objects) [ none ↦ stuck | some now ↦ remove_one a now q ]
      ]
]

pub data RemoveAnswer : Type 0 where
  no_subsystem still_online done out_of_fuel : RemoveAnswer
  not_removed : RemoveError → RemoveAnswer

-- HandleRemoveSubsystem.
unfoldable pub handle_remove_subsystem : ℕ → ℕ → Bool → Registry → Registry × RemoveAnswer
handle_remove_subsystem fuel name recursive r = elim (find_subsystem name r) [
  | none ↦ (r, no_subsystem)
  | some a ↦ elim (check_remove fuel recursive r a) [
    | none ↦ (r, out_of_fuel)
    | some false ↦ (r, still_online)
    | some true ↦ elim (remove fuel recursive a r) [
      | stuck ↦ (r, out_of_fuel)
      | failed e q ↦ (q, not_removed e)
      | removed q ↦ (q, done)
    ]
  ]
]
