-- ===== src/Common/Stream/RoundTrip.antt =====
-- common/stream.cc: a stream survives ToProto and FromProto.
use adastra.Prelude.{
  ◌≡◌, refl, true, false, none, some, [], ◌∷◌, ℤ, pos, negsuc, Text, arith, ◌⊎◌, if◌then◌else◌,
}
use adastra.Common.Stream.{
  Terminal, Disposition, Direction, StreamData, fd_number, Stream, is_present, no_terminal, is_zero,
  is_empty, new_stream,
}
use adastra.Common.Stream.Proto.{
  StreamControl, DispositionProto, DirectionProto, OneofData, stream_to_proto, stream_from_proto,
  disposition_to_proto, disposition_from_proto, direction_to_proto, direction_from_proto,
}

-- A stream with no data but the default, and a terminal that is there or as constructed.
abbrev pub IsPlain : Stream → Type 0
IsPlain s = s.data_of ≡ StreamData.filename []

-- What a stream of a disposition carries, and no more.
abbrev pub Carries : Disposition → Stream → Type 0
Carries Disposition.file s = (name : Text) × (s.data_of ≡ StreamData.filename name)
Carries Disposition.fd s = (n : ℤ) × (s.data_of ≡ fd_number n)
Carries Disposition.log s =
    (s.direction ≡ Direction.output) × ((s.terminal ≡ no_terminal) × IsPlain s)
Carries Disposition.syslog s =
    (s.direction ≡ Direction.output) × ((s.terminal ≡ no_terminal) × IsPlain s)
Carries d s = IsPlain s

zero_of : (n : ℤ) → is_zero n ≡ true → n ≡ pos 0
zero_of (pos n) h = ground arith
zero_of (negsuc n) h = absurd (cc)

empty_of : (t : Text) → is_empty t ≡ true → t ≡ []
empty_of [] h = refl
empty_of (c ∷ t) h = absurd (cc)

absent-no_terminal : (t : Terminal) → is_present t ≡ false → t ≡ no_terminal
unfolding is_present
absent-no_terminal t h = ground (arith, zero_of t.rows, zero_of t.cols, empty_of t.name)

direction-roundtrip : (d : Direction) → direction_from_proto (direction_to_proto d) ≡ some d
unfolding direction_from_proto direction_to_proto
direction-roundtrip Direction.default = refl
direction-roundtrip Direction.input = refl
direction-roundtrip Direction.output = refl

abbrev Survives : Stream → ℤ → Type 0
Survives s n =
    (m : StreamControl) × ((stream_to_proto s ≡ some m)
      × (stream_from_proto m (new_stream n) ≡ some s))

abbrev sent : Stream → DispositionProto → OneofData → DirectionProto → StreamControl
sent s p o d = record {
  stream_fd = s.stream_fd;
  tty = s.tty;
  disposition = p;
  direction = d;
  data_of = o;
  terminal = if is_present s.terminal then some s.terminal else none;
}

through :
    (d : Disposition) (s : Stream)
    → Carries d s
    → (n : ℤ) → Survives (record s { disposition = d }) n
unfolding stream_to_proto stream_from_proto disposition_to_proto disposition_from_proto
through Disposition.stage_zero s h n = (
  sent s DispositionProto.stagezero OneofData.not_set (direction_to_proto s.direction),
  (refl, ground (arith, direction-roundtrip s.direction, absent-no_terminal s.terminal)),
)
through Disposition.client s h n = (
  sent s DispositionProto.client OneofData.not_set (direction_to_proto s.direction),
  (refl, ground (arith, direction-roundtrip s.direction, absent-no_terminal s.terminal)),
)
through Disposition.file s (name, h) n = (
  sent s DispositionProto.filename (OneofData.filename name) (direction_to_proto s.direction),
  (ground arith, ground (arith, direction-roundtrip s.direction, absent-no_terminal s.terminal)),
)
through Disposition.fd s (k, h) n = (
  sent s DispositionProto.fd (OneofData.fd k) (direction_to_proto s.direction),
  (ground arith, ground (arith, direction-roundtrip s.direction, absent-no_terminal s.terminal)),
)
through Disposition.close s h n = (
  sent s DispositionProto.close OneofData.not_set (direction_to_proto s.direction),
  (refl, ground (arith, direction-roundtrip s.direction, absent-no_terminal s.terminal)),
)
through Disposition.log s h n =
    (sent s DispositionProto.logger OneofData.not_set DirectionProto.output, (refl, ground arith))
through Disposition.syslog s h n =
    (sent s DispositionProto.syslog OneofData.not_set DirectionProto.output, (refl, ground arith))

-- A stream whose data go with its disposition, and that is an output without a terminal if it goes
-- to the log or to syslog, can be sent, and FromProto into a new stream gives it back.
pub stream_from_proto-to_proto : (s : Stream) (n : ℤ) → Carries s.disposition s → Survives s n
stream_from_proto-to_proto s n h = through s.disposition s h n

-- The terminal of a stream to the log or to syslog is sent, and not read.
pub log_terminal-lost :
    (s : Stream) (t : Stream) (m : StreamControl)
    → (s.disposition ≡ Disposition.log) ⊎ (s.disposition ≡ Disposition.syslog)
    → stream_to_proto s ≡ some m
    → stream_from_proto m t
      ≡ some (record s { direction = Direction.output; terminal = t.terminal; data_of = t.data_of })
unfolding stream_to_proto stream_from_proto disposition_to_proto disposition_from_proto
log_terminal-lost s t m h e = ground arith
