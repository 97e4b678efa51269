-- ===== src/Common/Parameters/Frame.antt =====
-- common/parameters.cc: what an operation on one parameter does to the others.
use adastra.Prelude.{
  ◌≡◌, refl, Bool, true, false, List, [], ◌∷◌, ◌++◌, Text, text_eq, text_eq_sound, arith, inl, inr,
  Bool-cases, if◌then◌else◌,
}
use adastra.Common.Parameters.{
  Value, Node, node, Slot, ptr, Nodes, empty, entry, slot_of, put, value_of, children_of, node_of,
  follow, parse_parameter_name,
}
use adastra.Common.Parameters.Server.{
  is_map, store, set_at, make_node, make_map, make_value, crashes, answer_of, set_parameter,
  get_parameter, has_parameter,
}
use adastra.Common.Parameters.Laws.{slot_of-put, slot_of-put_other}
use adastra.Common.Parameters.Access.{
  follow-null, follow-ptr, follow-set_at, Slot-cases, parse_parameter_name-cons, get-parts,
  has-parts, set-parts,
}

-- Two names part ways: neither leads to the other.
abbrev pub diverges : List Text → List Text → Bool
diverges [] ys = false
diverges (x ∷ xs) [] = false
diverges (x ∷ xs) (y ∷ ys) = if text_eq x y then diverges xs ys else true

-- The loop reads its map at its first part only.
follow-cong :
    (qs : List Text) (q : Text) (ms ns : Nodes)
    → slot_of q ms ≡ slot_of q ns
    → (follow qs q ms).1 ≡ (follow qs q ns).1
unfolding follow
follow-cong [] q ms ns h = h
follow-cong (r ∷ qs) q ms ns h = rw (h, follow) (ground arith)

follow-empty : (qs : List Text) (q : Text) → (follow qs q empty).1 ≡ Slot.null
unfolding follow slot_of
follow-empty [] q = refl
follow-empty (r ∷ qs) q = refl

-- A part that both names have is passed.
follow-put_same :
    (y p q : Text) (qs : List Text) (m : Node) (ns : Nodes)
    → text_eq p q ≡ true
    → (follow (y ∷ qs) q (put p (ptr m) ns)).1 ≡ (follow qs y (children_of m)).1
follow-put_same y p q qs m ns same =
    let e = text_eq_sound p q same in
    follow-ptr y q qs (put p (ptr m) ns) m (rw (e) (slot_of-put q (ptr m) ns))

follow-node_of :
    (y p q : Text) (qs : List Text) (ns : Nodes)
    → text_eq p q ≡ true
    → (follow (y ∷ qs) q ns).1 ≡ (follow qs y (children_of (node_of (slot_of p ns)))).1
follow-node_of y p q qs ns same =
    let e = text_eq_sound p q same in
    elim (Slot-cases (slot_of q ns)) [
      | inl none_there ↦
          rw (follow-null y q qs ns none_there, e, none_there) (cc (follow-empty qs y))
      | inr (n, there) ↦ rw (follow-ptr y q qs ns n there, e, there) refl
    ]

follow-set_other :
    (ps qs : List Text) (p q : Text) (v : Value) (ns : Nodes)
    → diverges (p ∷ ps) (q ∷ qs) ≡ true
    → (follow qs q (set_at ps p v ns)).1 ≡ (follow qs q ns).1
unfolding set_at
follow-set_other [] qs p q v ns h =
    let other : text_eq p q ≡ false = ground arith in
    follow-cong qs q (set_at [] p v ns) ns
      (slot_of-put_other p q (ptr (store v (node_of (slot_of p ns)))) ns other)
follow-set_other (x ∷ ps) [] p q v ns h =
    let n = node_of (slot_of p ns) in
    let m = node (value_of n) (set_at ps x v (children_of n)) in
    follow-cong [] q (set_at (x ∷ ps) p v ns) ns (slot_of-put_other p q (ptr m) ns (ground arith))
follow-set_other (x ∷ ps) (y ∷ qs) p q v ns h =
    let n = node_of (slot_of p ns) in
    let m = node (value_of n) (set_at ps x v (children_of n)) in
    elim (Bool-cases (text_eq p q)) [
      | inr other ↦
          follow-cong (y ∷ qs) q (set_at (x ∷ ps) p v ns) ns
            (slot_of-put_other p q (ptr m) ns other)
      | inl same ↦ cc (
        follow-put_same y p q qs m ns same,
        follow-set_other ps qs x y v (children_of n) (ground arith),
        follow-node_of y p q qs ns same,
      )
    ]

-- Setting a parameter does not change what is read of a parameter whose name parts ways with it.
pub get_parameter-set_other :
    (name other : Text) (v : Value) (ns : Nodes)
    → diverges (parse_parameter_name name) (parse_parameter_name other) ≡ true
    → ((get_parameter other (set_parameter name v ns)).1 ≡ (get_parameter other ns).1)
      × ((has_parameter other (set_parameter name v ns)).1 ≡ (has_parameter other ns).1)
get_parameter-set_other name other v ns h =
    let (p, (ps, a)) = parse_parameter_name-cons name in
    let (q, (qs, b)) = parse_parameter_name-cons other in
    let d : diverges (p ∷ ps) (q ∷ qs) ≡ true = cc (a, b, h) in
    let same = follow-set_other ps qs p q v ns d in
    rw
      (
        set-parts name p ps a v ns,
        get-parts other q qs b (set_at ps p v ns),
        has-parts other q qs b (set_at ps p v ns),
        get-parts other q qs b ns,
        has-parts other q qs b ns,
        same,
      )
      (refl, refl)

-- The tree that the loop leaves where its first pointer is not null.
follow-after :
    (q p : Text) (qs : List Text) (ns : Nodes) (n : Node)
    → slot_of p ns ≡ ptr n
    → (follow (q ∷ qs) p ns).0 ≡ put p (ptr (node (value_of n) (follow qs q (children_of n)).0)) ns
unfolding follow
follow-after q p qs ns n h = rw (h, follow) refl

-- A read of a missing child of a leaf leaves a null pointer in the leaf.
follow-missing :
    (ps : List Text) (p q : Text) (v : Value) (ns : Nodes)
    → (follow ps p ns).1 ≡ ptr (node v empty)
    → (follow ps p (follow (ps ++ q ∷ []) p ns).0).1 ≡ ptr (node v (entry q Slot.null empty))
unfolding follow put slot_of
follow-missing [] p q v ns h =
    rw (follow-after q p [] ns (node v empty) h)
      (slot_of-put p (ptr (node v (entry q Slot.null empty))) ns)
follow-missing (r ∷ rs) p q v ns h = elim (Slot-cases (slot_of p ns)) [
  | inl none_there ↦ absurd (cc (h, follow-null r p rs ns none_there))
  | inr (n, there) ↦
      let m = node (value_of n) (follow (rs ++ q ∷ []) r (children_of n)).0 in
      cc (
        follow-after r p (rs ++ q ∷ []) ns n there,
        follow-ptr r p rs (put p (ptr m) ns) m (slot_of-put p (ptr m) ns),
        follow-missing rs r q v (children_of n) (cc (h, follow-ptr r p rs ns n there)),
      )
]

has_parameter-after :
    (name p : Text) (ps : List Text) (ns : Nodes)
    → parse_parameter_name name ≡ p ∷ ps
    → (has_parameter name ns).0 ≡ (follow ps p ns).0
unfolding has_parameter
has_parameter-after name p ps ns parts = rw (parts, has_parameter) refl

-- After a parameter was set to a value that is no map, HasParameter of a child of it leaves a null
-- pointer among its children, which the next GetParameter of the parameter reads through.
pub missing_child-crashes :
    (name child part : Text) (v : Value) (ns : Nodes)
    → is_map v ≡ false
    → parse_parameter_name child ≡ parse_parameter_name name ++ part ∷ []
    → (get_parameter name (has_parameter child (set_parameter name v ns)).0).1 ≡ crashes
unfolding answer_of make_node make_map make_value
missing_child-crashes name child part v ns h below =
    let (p, (ps, a)) = parse_parameter_name-cons name in
    let b : parse_parameter_name child ≡ p ∷ (ps ++ part ∷ []) = cc (a, below) in
    let t = set_at ps p v ns in
    let after = (follow (ps ++ part ∷ []) p t).0 in
    let left = follow-missing ps p part v t (follow-set_at ps p v ns h) in
    rw
      (
        set-parts name p ps a v ns,
        has_parameter-after child p (ps ++ part ∷ []) t b,
        get-parts name p ps a after,
        left,
      )
      refl
