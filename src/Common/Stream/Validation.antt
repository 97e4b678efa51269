-- ===== src/Common/Stream/Validation.antt =====
-- common/stream.cc: ValidateStreams.
use adastra.Prelude.{
  ◌≡◌, Bool, true, false, ◌&&◌, ◌||◌, not, List, [], ◌∷◌, pos, int_eq, arith, if◌then◌else◌, ◌++◌,
}
use adastra.Common.Stream.Proto.{StreamControl, DispositionProto, DirectionProto}

abbrev pub ends_validation : DispositionProto → Bool
ends_validation DispositionProto.close = true
ends_validation DispositionProto.stagezero = true
ends_validation _ = false

abbrev pub is_output : DirectionProto → Bool
is_output DirectionProto.output = true
is_output _ = false

abbrev pub is_input : DirectionProto → Bool
is_input DirectionProto.input = true
is_input _ = false

abbrev pub is_default : DirectionProto → Bool
is_default DirectionProto.default = true
is_default _ = false

-- The switch over the descriptor: stdin, stdout and stderr, or another.
unfoldable pub is_valid_stream : StreamControl → Bool
is_valid_stream s =
    if int_eq s.stream_fd (pos 0)
    then not (is_output s.direction)
    else if int_eq s.stream_fd (pos 1) || int_eq s.stream_fd (pos 2)
    then not (is_input s.direction)
    else not (is_default s.direction)

-- ValidateStreams: whether the status is ok.
unfoldable pub validate_streams : List StreamControl → Bool
validate_streams [] = true
validate_streams (s ∷ streams) =
    let rest = validate_streams streams in
    if ends_validation s.disposition then true else (if is_valid_stream s then rest else false)

-- Whether all the streams pass the switch.
abbrev pub all_valid : List StreamControl → Bool
all_valid [] = true
all_valid (s ∷ streams) = is_valid_stream s && all_valid streams

abbrev pub none_ends : List StreamControl → Bool
none_ends [] = true
none_ends (s ∷ streams) = not (ends_validation s.disposition) && none_ends streams

-- ValidateStreams checks each stream up to the first one that is closed or goes to stagezero, and
-- answers for these alone: what stands behind it is not checked.
pub validate_streams-prefix :
    (before after : List StreamControl) (s : StreamControl)
    → none_ends before ≡ true
    → ends_validation s.disposition ≡ true
    → (validate_streams before ≡ all_valid before)
      × (validate_streams (before ++ s ∷ after) ≡ all_valid before)
unfolding validate_streams
validate_streams-prefix [] after s h k = ground arith
validate_streams-prefix (b ∷ before) after s h k =
    ground (arith, validate_streams-prefix before after s)
