-- ===== src/Common/Parameters/Server.antt =====
-- common/parameters.cc: the operations of ParameterServer. `is_local_` only changes how names are
-- listed and is left out with the lists.
use adastra.Prelude.{
  Bool, true, false, ◌&&◌, ◌||◌, Option, none, some, List, [], ◌∷◌, ltb, ◌==◌, Text, text_eq,
  if◌then◌else◌,
}
use adastra.Common.Parameters.{
  Value, map, Entries, end, field, Node, node, Slot, null, ptr, Nodes, empty, entry,
  parse_parameter_name, slot_of, put, has_key, erase_key, value_of, children_of, node_of, follow,
}

abbrev pub is_map : Value → Bool
is_map (map es) = true
is_map v = false

-- ParameterServer::ExpandMap, over the map and over one value.
unfoldable mutual
  unfolding put slot_of

  pub expand_map : Entries → Nodes → Nodes
  expand_map end children = children
  expand_map (field name v rest) children =
      expand_map rest (put name (ptr (expand_value v (node_of (slot_of name children)))) children)

  pub expand_value : Value → Node → Node
  expand_value (map es) n = node (value_of n) (expand_map es (children_of n))
  expand_value v n = node v (children_of n)

-- What SetParameter does at the node that the name ends with.
unfoldable pub store : Value → Node → Node
store (map es) n = node (value_of n) (expand_map es (children_of n))
store v n = node v empty

-- SetParameter over a name's parts, of which the second argument is the first.
unfoldable pub set_at : List Text → Text → Value → Nodes → Nodes
set_at [] p v ns = put p (ptr (store v (node_of (slot_of p ns)))) ns
set_at (q ∷ qs) p v ns =
    let n = node_of (slot_of p ns) in
    put p (ptr (node (value_of n) (set_at qs q v (children_of n)))) ns

-- The order of std::string.
unfoldable pub text_before : Text → Text → Bool
text_before s [] = false
text_before [] (b ∷ t) = true
text_before (a ∷ s) (b ∷ t) = ltb a b || a == b && text_before s t

-- `map[name] = v` on a std::map.
unfoldable pub assign_entry : Text → Value → Entries → Entries
assign_entry name v end = field name v end
assign_entry name v (field key w rest) =
    let later = assign_entry name v rest in
    if text_before name key
    then field name v (field key w rest)
    else if text_eq key name
    then field key v rest
    else field key w later

-- ParameterServer::MakeMap over the children of a node; none where it reads through a null pointer.
-- A hash map has each key once, so that the order of its entries does not matter.
unfoldable mutual
  unfolding assign_entry

  pub make_map : Nodes → Option Entries
  make_map empty = some end
  make_map (entry name s rest) = elim (make_value s) [
    | none ↦ none
    | some v ↦ elim (make_map rest) [ none ↦ none | some es ↦ some (assign_entry name v es) ]
  ]

  pub make_value : Slot → Option Value
  make_value Slot.null = none
  make_value (ptr n) = make_node n

  pub make_node : Node → Option Value
  make_node (node v empty) = some v
  make_node (node v (entry name s rest)) = elim (make_map (entry name s rest)) [
    | none ↦ none
    | some es ↦ some (map es)
  ]

pub data Answer : Type 0 where
  not_found : Answer
  found : Value → Answer
  -- A read through a null pointer.
  crashes : Answer

-- What GetParameter answers once the loop is over.
unfoldable pub answer_of : Slot → Answer
answer_of Slot.null = not_found
answer_of (ptr n) = elim (make_node n) [ none ↦ crashes | some v ↦ found v ]

abbrev pub on_parts {ℓ} : {A : Type ℓ} → A → (List Text → Text → A) → List Text → A
on_parts invalid f [] = invalid
on_parts invalid f (p ∷ ps) = f ps p

-- ParameterServer::SetParameter; an invalid name, if there is one, changes nothing.
unfoldable pub set_parameter : Text → Value → Nodes → Nodes
set_parameter name v ns = on_parts ns (λ ps p. set_at ps p v ns) (parse_parameter_name name)

-- ParameterServer::GetParameter and HasParameter: the tree afterwards, and the answer.
unfoldable pub get_parameter : Text → Nodes → Nodes × Answer
get_parameter name ns =
    on_parts (ns, not_found) (λ ps p. let (after, s) = follow ps p ns in (after, answer_of s))
      (parse_parameter_name name)

abbrev pub is_node : Slot → Bool
is_node Slot.null = false
is_node (ptr n) = true

unfoldable pub has_parameter : Text → Nodes → Nodes × Bool
has_parameter name ns =
    on_parts (ns, false) (λ ps p. let (after, s) = follow ps p ns in (after, is_node s))
      (parse_parameter_name name)

pub data Deletion : Type 0 where
  missing : Deletion
  deleted : Nodes → Deletion
  null_read : Deletion

-- The deletion in the children of a node, back in the node's own map.
abbrev pub within : Text → Node → Nodes → Deletion → Deletion
within p n ns missing = missing
within p n ns (deleted children) = deleted (put p (ptr (node (value_of n) children)) ns)
within p n ns null_read = null_read

-- DeleteParameter over a name's parts, as above.
unfoldable pub delete_at : List Text → Text → Nodes → Deletion
delete_at [] p ns = if has_key p ns then deleted (erase_key p ns) else missing
delete_at (q ∷ qs) p ns =
    if has_key p ns
    then elim (slot_of p ns) [
      | null ↦ null_read
      | ptr n ↦ within p n ns (delete_at qs q (children_of n))
    ]
    else missing

-- ParameterServer::DeleteParameter.
unfoldable pub delete_parameter : Text → Nodes → Deletion
delete_parameter name ns = on_parts missing (λ ps p. delete_at ps p ns) (parse_parameter_name name)
