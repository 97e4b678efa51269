-- ===== src/Common/Conversions/Values.antt =====
-- common/parameters.cc: Value, ParameterNode and Parameter to and from messages. A map of a message
-- has no order of its own: it is the list of its entries as they were set, each key once.
use adastra.Prelude.{ℕ, Bool, Option, none, some, ℤ, Text}
use adastra.Common.Parameters.{
  Value, string, int32, int64, double, bool, bytes, time, list, map, undefined, Values, nil, cons,
  Entries, end, field,
}
use adastra.Common.Parameters.Server.{assign_entry}

mutual
  -- The oneof of proto::parameters::Value.
  pub data ValueProto : Type 0 where
    not_set : ValueProto
    string_value : Text → ValueProto
    int32_value : ℤ → ValueProto
    int64_value : ℤ → ValueProto
    double_value : ℕ → ValueProto
    bool_value : Bool → ValueProto
    bytes_value : Text → ValueProto
    time_value : ℤ → ℤ → ValueProto
    list_value : ListProto → ValueProto
    map_value : MapProto → ValueProto

  pub data ListProto : Type 0 where
    empty_list : ListProto
    then_value : ValueProto → ListProto → ListProto

  pub data MapProto : Type 0 where
    empty_map : MapProto
    then_entry : Text → ValueProto → MapProto → MapProto

-- Value::ToProto into a message with no field set. A value whose type is not initialised is none.
unfoldable mutual
  pub value_to_proto : Value → Option ValueProto
  value_to_proto (string s) = some (string_value s)
  value_to_proto (int32 n) = some (int32_value n)
  value_to_proto (int64 n) = some (int64_value n)
  value_to_proto (double d) = some (double_value d)
  value_to_proto (bool b) = some (bool_value b)
  value_to_proto (bytes s) = some (bytes_value s)
  value_to_proto (time s n) = some (time_value s n)
  value_to_proto (list vs) = elim (list_to_proto vs) [ none ↦ none | some l ↦ some (list_value l) ]
  value_to_proto (map es) = elim (map_to_proto es) [ none ↦ none | some m ↦ some (map_value m) ]
  value_to_proto undefined = none

  pub list_to_proto : Values → Option ListProto
  list_to_proto nil = some empty_list
  list_to_proto (cons v vs) = elim (value_to_proto v) [
    | none ↦ none
    | some p ↦ elim (list_to_proto vs) [ none ↦ none | some l ↦ some (then_value p l) ]
  ]

  pub map_to_proto : Entries → Option MapProto
  map_to_proto end = some empty_map
  map_to_proto (field k v es) = elim (value_to_proto v) [
    | none ↦ none
    | some p ↦ elim (map_to_proto es) [ none ↦ none | some m ↦ some (then_entry k p m) ]
  ]

-- Value::FromProto into a value that was just constructed. The bytes of a message are a std::string,
-- and assigned as one.
unfoldable mutual
  unfolding assign_entry

  pub value_from_proto : ValueProto → Value
  value_from_proto not_set = undefined
  value_from_proto (string_value s) = string s
  value_from_proto (int32_value n) = int32 n
  value_from_proto (int64_value n) = int64 n
  value_from_proto (double_value d) = double d
  value_from_proto (bool_value b) = bool b
  value_from_proto (bytes_value s) = string s
  value_from_proto (time_value s n) = time s n
  value_from_proto (list_value l) = list (list_from_proto l)
  value_from_proto (map_value m) = map (map_from_proto m)

  pub list_from_proto : ListProto → Values
  list_from_proto empty_list = nil
  list_from_proto (then_value p l) = cons (value_from_proto p) (list_from_proto l)

  pub map_from_proto : MapProto → Entries
  map_from_proto empty_map = end
  map_from_proto (then_entry k p m) = assign_entry k (value_from_proto p) (map_from_proto m)

pub record Parameter : Type 0 where
  pub name : Text
  pub value : Value

pub record ParameterProto : Type 0 where
  pub name : Text
  pub value : ValueProto

-- Parameter::ToProto and FromProto.
unfoldable pub parameter_to_proto : Parameter → Option ParameterProto
parameter_to_proto p = elim (value_to_proto p.value) [
  | none ↦ none
  | some v ↦ some (record { name = p.name; value = v })
]

unfoldable pub parameter_from_proto : ParameterProto → Parameter
unfolding value_from_proto
parameter_from_proto p = record { name = p.name; value = value_from_proto p.value }
