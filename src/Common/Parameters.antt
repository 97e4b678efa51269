-- ===== src/Common/Parameters.antt =====
-- common/parameters.h and parameters.cc: the tree of parameters of a server. A hash map of nodes is
-- a list of its entries, and an entry can hold a null pointer, which `operator[]` puts there for a
-- key that is missing. A node's name is the key that it stands under; its parent is left out.
pub mod Server
pub mod Laws
pub mod Access
pub mod Frame
use adastra.Prelude.{
  ℕ, ◌+◌, Bool, true, false, ◌&&◌, ◌||◌, not, Option, none, some, List, [], ◌∷◌, ◌++◌, ℤ, ltb, ◌==◌,
  Text, text_eq, if◌then◌else◌,
}

-- Value. A double is its bit pattern. `undefined` is a value that was only constructed by default,
-- whose type is not initialised.
mutual
  pub data Value : Type 0 where
    string : Text → Value
    int32 : ℤ → Value
    int64 : ℤ → Value
    double : ℕ → Value
    bool : Bool → Value
    bytes : Text → Value
    time : ℤ → ℤ → Value
    list : Values → Value
    map : Entries → Value
    undefined : Value

  pub data Values : Type 0 where
    nil : Values
    cons : Value → Values → Values

  -- A std::map, in the order of its keys.
  pub data Entries : Type 0 where
    end : Entries
    field : Text → Value → Entries → Entries

mutual
  pub data Node : Type 0 where
    node : Value → Nodes → Node

  pub data Slot : Type 0 where
    null : Slot
    ptr : Node → Slot

  pub data Nodes : Type 0 where
    empty : Nodes
    entry : Text → Slot → Nodes → Nodes

abbrev pub slash : ℕ
slash = 47

-- The first loop of ParseParameterName.
unfoldable pub drop_slashes : Text → Text
drop_slashes [] = []
drop_slashes (c ∷ name) = let rest = drop_slashes name in if c == slash then rest else c ∷ name

-- The second loop, with the part so far; `skipping` within a run of slashes.
unfoldable pub split_parts : Bool → Text → Text → List Text
split_parts skipping part [] = part ∷ []
split_parts skipping part (c ∷ name) =
    let at_slash = c == slash in
    let rest = split_parts at_slash (if at_slash then [] else part ++ c ∷ []) name in
    if at_slash && not skipping then part ∷ rest else rest

-- ParameterServer::ParseParameterName.
unfoldable pub parse_parameter_name : Text → List Text
parse_parameter_name name = split_parts false [] (drop_slashes name)

-- The pointer that a read through `operator[]` yields.
unfoldable pub slot_of : Text → Nodes → Slot
slot_of name empty = Slot.null
slot_of name (entry key s rest) =
    let later = slot_of name rest in if text_eq key name then s else later

-- A write through `operator[]`.
unfoldable pub put : Text → Slot → Nodes → Nodes
put name s empty = entry name s empty
put name s (entry key old rest) =
    let later = put name s rest in
    if text_eq key name then entry key s rest else entry key old later

-- `find`, as a test.
unfoldable pub has_key : Text → Nodes → Bool
has_key name empty = false
has_key name (entry key s rest) = text_eq key name || has_key name rest

unfoldable pub erase_key : Text → Nodes → Nodes
erase_key name empty = empty
erase_key name (entry key s rest) =
    let later = erase_key name rest in if text_eq key name then later else entry key s later

abbrev pub value_of : Node → Value
value_of (node v children) = v

abbrev pub children_of : Node → Nodes
children_of (node v children) = children

-- The node behind the pointer, made where it is null.
abbrev pub node_of : Slot → Node
node_of Slot.null = node undefined empty
node_of (ptr n) = n

-- The loop of GetParameter, HasParameter and FindParameter over a name's parts, of which the second
-- argument is the first: the tree after the reads, and the pointer that they end with.
unfoldable pub follow : List Text → Text → Nodes → Nodes × Slot
follow [] p ns = (put p (slot_of p ns) ns, slot_of p ns)
follow (q ∷ qs) p ns = elim (slot_of p ns) [
  | null ↦ (put p Slot.null ns, Slot.null)
  | ptr n ↦
      let (children, found) = follow qs q (children_of n) in
      (put p (ptr (node (value_of n) children)) ns, found)
]
