-- ===== src/Common/Parameters/Access.antt =====
-- common/parameters.cc: a parameter that was just set, or just deleted.
use adastra.Prelude.{
  ◌≡◌, refl, Bool, true, false, List, [], ◌∷◌, Text, arith, inl, inr, Bool-cases, ◌⊎◌, ◌==◌, ◌&&◌,
  ◌++◌, not, if◌then◌else◌,
}
use adastra.Common.Parameters.{
  Value, string, int32, int64, double, bool, bytes, time, list, map, undefined, Node, node, Slot,
  ptr, Nodes, empty, slot_of, put, value_of, children_of, node_of, follow, parse_parameter_name,
  split_parts, drop_slashes, slash,
}
use adastra.Common.Parameters.Server.{
  is_map, is_node, store, set_at, make_node, found, not_found, answer_of, set_parameter,
  get_parameter, has_parameter, Deletion, deleted, missing, null_read, within, delete_at,
  delete_parameter,
}
use adastra.Common.Parameters.Laws.{slot_of-put, slot_of-erase_key}

-- The loop where its first pointer is null, and where it is not.
pub follow-null :
    (q p : Text) (qs : List Text) (ns : Nodes)
    → slot_of p ns ≡ Slot.null
    → (follow (q ∷ qs) p ns).1 ≡ Slot.null
unfolding follow
follow-null q p qs ns h = rw (h, follow) refl

pub follow-ptr :
    (q p : Text) (qs : List Text) (ns : Nodes) (n : Node)
    → slot_of p ns ≡ ptr n
    → (follow (q ∷ qs) p ns).1 ≡ (follow qs q (children_of n)).1
unfolding follow
follow-ptr q p qs ns n h = rw (h, follow) refl

store_value : (v : Value) (n : Node) → is_map v ≡ false → store v n ≡ node v empty
unfolding store
store_value (string s) n h = refl
store_value (int32 i) n h = refl
store_value (int64 i) n h = refl
store_value (double d) n h = refl
store_value (bool b) n h = refl
store_value (bytes s) n h = refl
store_value (time s t) n h = refl
store_value (list vs) n h = refl
store_value (map es) n h = absurd (cc)
store_value undefined n h = refl

pub Slot-cases : (s : Slot) → (s ≡ Slot.null) ⊎ ((n : Node) × (s ≡ ptr n))
Slot-cases Slot.null = inl refl
Slot-cases (ptr n) = inr (n, refl)

pub follow-set_at :
    (qs : List Text) (p : Text) (v : Value) (ns : Nodes)
    → is_map v ≡ false
    → (follow qs p (set_at qs p v ns)).1 ≡ ptr (node v empty)
unfolding follow set_at
follow-set_at [] p v ns h = cc (
  slot_of-put p (ptr (store v (node_of (slot_of p ns)))) ns,
  store_value v (node_of (slot_of p ns)) h,
)
follow-set_at (q ∷ qs) p v ns h =
    let n = node_of (slot_of p ns) in
    let inner = set_at qs q v (children_of n) in
    cc (
      follow-ptr q p qs (set_at (q ∷ qs) p v ns) (node (value_of n) inner)
          (slot_of-put p (ptr (node (value_of n) inner)) ns),
      follow-set_at qs q v (children_of n) h,
    )

-- ParseParameterName yields one part at least.
split_parts-cons :
    (skipping : Bool) (part name : Text)
    → (p : Text) × ((ps : List Text) × (split_parts skipping part name ≡ p ∷ ps))
unfolding split_parts
split_parts-cons skipping part [] = (part, ([], refl))
split_parts-cons skipping part (c ∷ name) =
    let at_slash = c == slash in
    let next = if at_slash then [] else part ++ c ∷ [] in
    elim (Bool-cases (at_slash && not skipping)) [
      | inl ends ↦ (part, (split_parts at_slash next name, rw (ends) refl))
      | inr goes_on ↦
          let (p, (ps, e)) = split_parts-cons at_slash next name in (p, (ps, rw (goes_on) e))
    ]

pub parse_parameter_name-cons :
    (name : Text) → (p : Text) × ((ps : List Text) × (parse_parameter_name name ≡ p ∷ ps))
unfolding parse_parameter_name
parse_parameter_name-cons name = split_parts-cons false [] (drop_slashes name)

-- The operations on the parts of a name.
module _ (name p : Text) (ps : List Text) (parts : parse_parameter_name name ≡ p ∷ ps) where
  pub get-parts : (ns : Nodes) → (get_parameter name ns).1 ≡ answer_of (follow ps p ns).1
  unfolding get_parameter
  get-parts ns = rw (parts, get_parameter) refl

  pub has-parts : (ns : Nodes) → (has_parameter name ns).1 ≡ is_node (follow ps p ns).1
  unfolding has_parameter
  has-parts ns = rw (parts, has_parameter) refl

  pub set-parts : (v : Value) (ns : Nodes) → set_parameter name v ns ≡ set_at ps p v ns
  unfolding set_parameter
  set-parts v ns = rw (parts, set_parameter) refl

  pub delete-parts : (ns : Nodes) → delete_parameter name ns ≡ delete_at ps p ns
  unfolding delete_parameter
  delete-parts ns = rw (parts, delete_parameter) refl

-- A parameter that is set to a value other than a map is then there, with that value, whatever the
-- tree held under its name.
pub get_parameter-set_parameter :
    (name : Text) (v : Value) (ns : Nodes)
    → is_map v ≡ false
    → ((get_parameter name (set_parameter name v ns)).1 ≡ found v)
      × ((has_parameter name (set_parameter name v ns)).1 ≡ true)
unfolding answer_of make_node
get_parameter-set_parameter name v ns h =
    let (p, (ps, parts)) = parse_parameter_name-cons name in
    let there = follow-set_at ps p v ns h in
    rw
      (
        set-parts name p ps parts v ns,
        get-parts name p ps parts (set_at ps p v ns),
        has-parts name p ps parts (set_at ps p v ns),
        there,
      )
      (refl, refl)

pub within-deleted :
    (p : Text) (n : Node) (ns after : Nodes) (d : Deletion)
    → within p n ns d ≡ deleted after
    → (children : Nodes) × ((d ≡ deleted children)
        × (after ≡ put p (ptr (node (value_of n) children)) ns))
within-deleted p n ns after missing h = absurd (cc)
within-deleted p n ns after (deleted children) h = (children, (refl, cc))
within-deleted p n ns after null_read h = absurd (cc)

pub follow-delete_at :
    (qs : List Text) (p : Text) (ns after : Nodes)
    → delete_at qs p ns ≡ deleted after
    → (follow qs p after).1 ≡ Slot.null
unfolding follow delete_at
follow-delete_at [] p ns after h = ground (arith, slot_of-erase_key p ns)
follow-delete_at (q ∷ qs) p ns after h = elim (Slot-cases (slot_of p ns)) [
  | inl none_there ↦ absurd (ground arith)
  | inr (n, there) ↦
      let inner : within p n ns (delete_at qs q (children_of n)) ≡ deleted after = ground arith in
      let (children, (below, e)) =
        within-deleted p n ns after (delete_at qs q (children_of n)) inner in
      let m = node (value_of n) children in
      rw (e) (
        cc (
          follow-ptr q p qs (put p (ptr m) ns) m (slot_of-put p (ptr m) ns),
          follow-delete_at qs q (children_of n) children below,
        ))
]

-- A parameter that was deleted is not there any more.
pub has_parameter-delete_parameter :
    (name : Text) (ns after : Nodes)
    → delete_parameter name ns ≡ deleted after
    → ((has_parameter name after).1 ≡ false) × ((get_parameter name after).1 ≡ not_found)
unfolding answer_of
has_parameter-delete_parameter name ns after h =
    let (p, (ps, parts)) = parse_parameter_name-cons name in
    let gone = follow-delete_at ps p ns after (cc (delete-parts name p ps parts ns, h)) in
    rw (get-parts name p ps parts after, has-parts name p ps parts after, gone) (refl, refl)
