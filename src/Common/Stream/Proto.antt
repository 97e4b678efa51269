-- ===== src/Common/Stream/Proto.antt =====
-- common/stream.cc: ToProto and FromProto. An enumerator's number that the schema does not name is
-- `other`.
use adastra.Prelude.{Bool, true, false, Option, none, some, [], ℤ, pos, Text, if◌then◌else◌}
use adastra.Common.Stream.{
  Terminal, Disposition, Direction, StreamData, fd_number, Stream, is_present,
}

pub data DispositionProto : Type 0 where
  stagezero client filename fd close logger syslog other : DispositionProto

pub data DirectionProto : Type 0 where
  default input output other : DirectionProto

-- The oneof `data`.
pub data OneofData : Type 0 where
  not_set : OneofData
  filename : Text → OneofData
  fd : ℤ → OneofData

pub record StreamControl : Type 0 where
  pub stream_fd : ℤ
  pub tty : Bool
  pub disposition : DispositionProto
  pub direction : DirectionProto
  pub data_of : OneofData
  pub terminal : Option Terminal

-- The getters of the oneof, which answer the default where the other member is set.
abbrev pub filename_of : OneofData → Text
filename_of (OneofData.filename name) = name
filename_of _ = []

abbrev pub fd_of : OneofData → ℤ
fd_of (OneofData.fd n) = n
fd_of _ = pos 0

-- std::get throws on the other alternative: none.
abbrev pub get_filename : StreamData → Option Text
get_filename (StreamData.filename name) = some name
get_filename (fd_number n) = none

abbrev pub get_fd : StreamData → Option ℤ
get_fd (StreamData.filename name) = none
get_fd (fd_number n) = some n

unfoldable pub direction_to_proto : Direction → DirectionProto
direction_to_proto Direction.default = DirectionProto.default
direction_to_proto Direction.input = DirectionProto.input
direction_to_proto Direction.output = DirectionProto.output

-- The first switch of ToProto: the disposition, the data, and the direction if it is set there.
unfoldable pub disposition_to_proto :
    Disposition → StreamData → Option (DispositionProto × (OneofData × Option DirectionProto))
disposition_to_proto Disposition.stage_zero d =
    some (DispositionProto.stagezero, (OneofData.not_set, none))
disposition_to_proto Disposition.client d =
    some (DispositionProto.client, (OneofData.not_set, none))
disposition_to_proto Disposition.file d = elim (get_filename d) [
  | none ↦ none
  | some name ↦ some (DispositionProto.filename, (OneofData.filename name, none))
]
disposition_to_proto Disposition.fd d = elim (get_fd d) [
  | none ↦ none
  | some n ↦ some (DispositionProto.fd, (OneofData.fd n, none))
]
disposition_to_proto Disposition.close d = some (DispositionProto.close, (OneofData.not_set, none))
disposition_to_proto Disposition.log d =
    some (DispositionProto.logger, (OneofData.not_set, some DirectionProto.output))
disposition_to_proto Disposition.syslog d =
    some (DispositionProto.syslog, (OneofData.not_set, some DirectionProto.output))

-- Stream::ToProto into a message with no field set; none where it throws.
unfoldable pub stream_to_proto : Stream → Option StreamControl
stream_to_proto s = elim (disposition_to_proto s.disposition s.data_of) [
  | none ↦ none
  | some (disposition, (oneof, set)) ↦ some (record {
    stream_fd = s.stream_fd;
    tty = s.tty;
    disposition = disposition;
    direction = elim set [ none ↦ direction_to_proto s.direction | some d ↦ d ];
    data_of = oneof;
    terminal = if is_present s.terminal then some s.terminal else none;
  })
]

unfoldable pub direction_from_proto : DirectionProto → Option Direction
direction_from_proto DirectionProto.default = some Direction.default
direction_from_proto DirectionProto.input = some Direction.input
direction_from_proto DirectionProto.output = some Direction.output
direction_from_proto DirectionProto.other = none

-- The first switch of FromProto: the stream, and whether its direction is set; none for an error.
unfoldable pub disposition_from_proto :
    StreamControl → DispositionProto → Stream → Option (Stream × Bool)
disposition_from_proto src DispositionProto.stagezero s =
    some (record s { disposition = Disposition.stage_zero }, false)
disposition_from_proto src DispositionProto.client s =
    some (record s { disposition = Disposition.client }, false)
disposition_from_proto src DispositionProto.filename s = some (
  record s {
    disposition = Disposition.file;
    data_of = StreamData.filename (filename_of src.data_of);
  },
  false,
)
disposition_from_proto src DispositionProto.fd s =
    some (record s { disposition = Disposition.fd; data_of = fd_number (fd_of src.data_of) }, false)
disposition_from_proto src DispositionProto.close s =
    some (record s { disposition = Disposition.close }, false)
disposition_from_proto src DispositionProto.logger s =
    some (record s { disposition = Disposition.log; direction = Direction.output }, true)
disposition_from_proto src DispositionProto.syslog s =
    some (record s { disposition = Disposition.syslog; direction = Direction.output }, true)
disposition_from_proto src DispositionProto.other s = none

-- Stream::FromProto into a stream; none for an error.
unfoldable pub stream_from_proto : StreamControl → Stream → Option Stream
stream_from_proto src s =
    elim (disposition_from_proto src src.disposition
      (record s { stream_fd = src.stream_fd; tty = src.tty })) [
        | none ↦ none
        | some (t, true) ↦ some t
        | some (t, false) ↦ elim (direction_from_proto src.direction) [
          | none ↦ none
          | some d ↦ some (record t {
            direction = d;
            terminal = elim src.terminal [ none ↦ t.terminal | some terminal ↦ terminal ];
          })
        ]
      ]
