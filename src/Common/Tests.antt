-- ===== src/Common/Tests.antt =====
-- common/parameters.cc: the theorems on a small tree, and runs of the code.
mod Messages
use adastra.Prelude.{◌≡◌, refl, true, false, [], ◌∷◌, pos, Text}
use adastra.Common.Parameters.{
  Value, int32, map, undefined, end, field, Nodes, empty, entry, ptr, node, parse_parameter_name,
  split_parts, drop_slashes, slot_of, put, has_key, erase_key, follow,
}
use adastra.Common.Parameters.Server.{
  found, not_found, crashes, set_parameter, get_parameter, has_parameter, delete_parameter, set_at,
  delete_at, store, expand_map, expand_value, make_map, make_value, make_node, answer_of,
  assign_entry, text_before,
}
use adastra.Common.Parameters.Access.{get_parameter-set_parameter, has_parameter-delete_parameter}
use adastra.Common.Parameters.Frame.{get_parameter-set_other, missing_child-crashes}

-- "/c", "/c/f", "//c//g" and "/c/f/x".
abbrev name_c : Text
name_c = 47 ∷ 99 ∷ []

abbrev name_f : Text
name_f = 47 ∷ 99 ∷ 47 ∷ 102 ∷ []

abbrev name_g : Text
name_g = 47 ∷ 47 ∷ 99 ∷ 47 ∷ 47 ∷ 103 ∷ []

abbrev name_x : Text
name_x = 47 ∷ 99 ∷ 47 ∷ 102 ∷ 47 ∷ 120 ∷ []

abbrev part_c : Text
part_c = 99 ∷ []

abbrev part_f : Text
part_f = 102 ∷ []

abbrev part_g : Text
part_g = 103 ∷ []

abbrev rate : Value
rate = int32 (pos 30)

-- A tree that has "/c/f".
abbrev small : Nodes
small = entry part_c (ptr (node undefined (entry part_f (ptr (node rate empty)) empty))) empty

slashes : parse_parameter_name name_g ≡ part_c ∷ part_g ∷ []
unfolding parse_parameter_name split_parts drop_slashes
slashes = refl

-- The children of a parameter are its value, as a map in the order of the keys.
map_value :
    (get_parameter name_c (set_parameter name_g rate small)).1
    ≡ found (map (field part_f rate (field part_g rate end)))
unfolding get_parameter set_parameter parse_parameter_name split_parts drop_slashes follow set_at
    store put slot_of answer_of make_map make_value make_node assign_entry text_before
map_value = refl

-- A map that is set is spread over the children.
map_spread :
    (get_parameter name_f (set_parameter name_c (map (field part_f (int32 (pos 7)) end)) small)).1
    ≡ found (int32 (pos 7))
unfolding get_parameter set_parameter parse_parameter_name split_parts drop_slashes follow set_at
    store expand_map expand_value put slot_of answer_of make_node
map_spread = refl

get_parameter-set_parameter_example :
    ((get_parameter name_c (set_parameter name_c rate small)).1 ≡ found rate)
    × ((has_parameter name_c (set_parameter name_c rate small)).1 ≡ true)
get_parameter-set_parameter_example = get_parameter-set_parameter name_c rate small refl

-- "/c" is left without children and with the value that it was made with.
abbrev emptied : Nodes
emptied = entry part_c (ptr (node undefined empty)) empty

get_parameter-set_other_example :
    ((get_parameter name_f (set_parameter name_g rate small)).1 ≡ (get_parameter name_f small).1)
    × ((has_parameter name_f (set_parameter name_g rate small)).1 ≡ (has_parameter name_f small).1)
unfolding parse_parameter_name split_parts drop_slashes
get_parameter-set_other_example = get_parameter-set_other name_g name_f rate small refl

missing_child-crashes_example :
    (get_parameter name_f (has_parameter name_x (set_parameter name_f rate small)).0).1 ≡ crashes
unfolding parse_parameter_name split_parts drop_slashes
missing_child-crashes_example = missing_child-crashes name_f name_x (120 ∷ []) rate small refl refl
