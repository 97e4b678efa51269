-- ===== src/Common/Conversions/RoundTrip.antt =====
-- common/parameters.cc: values through messages and back.
use adastra.Prelude.{◌≡◌, refl, ap, Bool, true, false, ◌&&◌, some, Text, arith, both}
use adastra.Common.Parameters.{
  Value, string, int32, int64, double, bool, bytes, time, list, map, undefined, Values, nil, cons,
  Entries, end, field,
}
use adastra.Common.Parameters.Server.{assign_entry, text_before}
use adastra.Common.Conversions.Values.{
  ValueProto, string_value, int32_value, int64_value, double_value, bool_value, bytes_value,
  time_value, list_value, map_value, ListProto, empty_list, then_value, MapProto, empty_map,
  then_entry, value_to_proto, list_to_proto, map_to_proto, value_from_proto, list_from_proto,
  map_from_proto, Parameter, ParameterProto, parameter_to_proto, parameter_from_proto,
}
use adastra.Common.Conversions.Logs.{without_fatal}
use adastra.Common.Conversions.Events.{Event}

-- The value with its bytes as strings.
unfoldable mutual
  pub as_strings : Value → Value
  as_strings (bytes s) = string s
  as_strings (list vs) = list (all_as_strings vs)
  as_strings (map es) = map (entries_as_strings es)
  as_strings v = v

  pub all_as_strings : Values → Values
  all_as_strings nil = nil
  all_as_strings (cons v vs) = cons (as_strings v) (all_as_strings vs)

  pub entries_as_strings : Entries → Entries
  entries_as_strings end = end
  entries_as_strings (field k v es) = field k (as_strings v) (entries_as_strings es)

-- A key stands before the first of the entries.
abbrev pub precedes : Text → Entries → Bool
precedes k end = true
precedes k (field j v es) = text_before k j

-- Every value in it has a type, and its maps are in the order of their keys.
unfoldable mutual
  pub is_sound : Value → Bool
  is_sound (list vs) = all_sound vs
  is_sound (map es) = entries_sound es
  is_sound undefined = false
  is_sound v = true

  pub all_sound : Values → Bool
  all_sound nil = true
  all_sound (cons v vs) = is_sound v && all_sound vs

  pub entries_sound : Entries → Bool
  entries_sound end = true
  entries_sound (field k v es) = is_sound v && (precedes k es && entries_sound es)

assign-first :
    (k : Text) (v : Value) (es : Entries)
    → precedes k es ≡ true
    → assign_entry k v es ≡ field k v es
unfolding assign_entry
assign-first k v end h = refl
assign-first k v (field j w es) h = ground arith

precedes-as_strings : (k : Text) (es : Entries) → precedes k (entries_as_strings es) ≡ precedes k es
unfolding entries_as_strings
precedes-as_strings k end = refl
precedes-as_strings k (field j v es) = refl

mutual
  unfolding value_to_proto value_from_proto as_strings is_sound

  value-roundtrip :
      (v : Value)
      → is_sound v ≡ true
      → (p : ValueProto) × ((value_to_proto v ≡ some p) × (value_from_proto p ≡ as_strings v))
  value-roundtrip (string s) h = (string_value s, (refl, refl))
  value-roundtrip (int32 n) h = (int32_value n, (refl, refl))
  value-roundtrip (int64 n) h = (int64_value n, (refl, refl))
  value-roundtrip (double d) h = (double_value d, (refl, refl))
  value-roundtrip (bool b) h = (bool_value b, (refl, refl))
  value-roundtrip (bytes s) h = (bytes_value s, (refl, refl))
  value-roundtrip (time s n) h = (time_value s n, (refl, refl))
  value-roundtrip (list vs) h =
      let (l, (e, f)) = list-roundtrip vs h in
      (list_value l, (rw (e, value_to_proto) refl, ap list f))
  value-roundtrip (map es) h =
      let (m, (e, f)) = map-roundtrip es h in (map_value m, (rw (e, value_to_proto) refl, ap map f))
  value-roundtrip undefined h = absurd (cc)

  list-roundtrip :
      (vs : Values)
      → all_sound vs ≡ true
      → (l : ListProto) × ((list_to_proto vs ≡ some l) × (list_from_proto l ≡ all_as_strings vs))
  list-roundtrip nil h = (empty_list, (refl, refl))
  list-roundtrip (cons v vs) h =
      let (first, rest) = both (is_sound v) (all_sound vs) h in
      let (p, (e, f)) = value-roundtrip v first in
      let (l, (e', f')) = list-roundtrip vs rest in
      (then_value p l, (rw (e, e', list_to_proto) refl, cc (f, f')))

  map-roundtrip :
      (es : Entries)
      → entries_sound es ≡ true
      → (m : MapProto) × ((map_to_proto es ≡ some m) × (map_from_proto m ≡ entries_as_strings es))
  map-roundtrip end h = (empty_map, (refl, refl))
  map-roundtrip (field k v es) h =
      let (one, others) = both (is_sound v) (precedes k es && entries_sound es) h in
      let (first, rest) = both (precedes k es) (entries_sound es) others in
      let (p, (e, f)) = value-roundtrip v one in
      let (m, (e', f')) = map-roundtrip es rest in
      (
        then_entry k p m,
        (
          rw (e, e', map_to_proto) refl,
          rw (f, f')
              (assign-first k (as_strings v) (entries_as_strings es)
                (cc (precedes-as_strings k es, first))),
        ),
      )

pub parameter-roundtrip :
    (p : Parameter)
    → is_sound p.value ≡ true
    → (q : ParameterProto) × ((parameter_to_proto p ≡ some q)
        × (parameter_from_proto q ≡ record p { value = as_strings p.value }))
unfolding parameter_to_proto parameter_from_proto
parameter-roundtrip p h =
    let (v, (e, f)) = value-roundtrip p.value h in
    (record { name = p.name; value = v }, (rw (e, parameter_to_proto) refl, cc f))

-- The event that comes back: bytes as strings, and a fatal log message as an error.
abbrev pub received : Event → Event
received (Event.log m) = Event.log (record m { level = without_fatal m.level })
received (Event.parameter_update p) =
    Event.parameter_update (record p { value = as_strings p.value })
received e = e

abbrev pub event_is_sound : Event → Bool
event_is_sound (Event.parameter_update p) = is_sound p.value
event_is_sound e = true
