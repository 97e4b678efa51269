-- ===== src/Common/Tests/Messages.antt =====
-- common/: the theorems on a stream, a list of streams, and an event with a list of bytes.
use adastra.Prelude.{◌≡◌, refl, true, false, some, [], ◌∷◌, pos, inl}
use adastra.Common.Stream.{
  Disposition, Direction, StreamData, Stream, is_present, new_stream, no_terminal,
}
use adastra.Common.Stream.Proto.{
  StreamControl, DispositionProto, DirectionProto, OneofData, stream_to_proto, stream_from_proto,
  disposition_to_proto, direction_to_proto,
}
use adastra.Common.Stream.RoundTrip.{stream_from_proto-to_proto, log_terminal-lost}
use adastra.Common.Stream.Validation.{validate_streams, is_valid_stream}
use adastra.Common.Parameters.{bytes, list, nil, cons}
use adastra.Common.Conversions.Events.{Event}

-- Standard output into a file, on a terminal.
abbrev file_stream : Stream
file_stream = record {
  stream_fd = pos 1;
  tty = true;
  disposition = Disposition.file;
  direction = Direction.output;
  data_of = StreamData.filename (111 ∷ []);
  terminal = record { name = 116 ∷ []; rows = pos 24; cols = pos 80 };
}

stream_from_proto-to_proto_example :
    (m : StreamControl) × ((stream_to_proto file_stream ≡ some m)
      × (stream_from_proto m (new_stream (pos 0)) ≡ some file_stream))
stream_from_proto-to_proto_example = stream_from_proto-to_proto file_stream (pos 0) (111 ∷ [], refl)

-- Standard output to the log, on the same terminal.
abbrev log_stream : Stream
log_stream = record file_stream { disposition = Disposition.log; data_of = StreamData.filename [] }

abbrev sent_log : StreamControl
sent_log = record {
  stream_fd = pos 1;
  tty = true;
  disposition = DispositionProto.logger;
  direction = DirectionProto.output;
  data_of = OneofData.not_set;
  terminal = some (record { name = 116 ∷ []; rows = pos 24; cols = pos 80 });
}

sends_log : stream_to_proto log_stream ≡ some sent_log
unfolding stream_to_proto disposition_to_proto direction_to_proto is_present
sends_log = refl

log_terminal-lost_example :
    stream_from_proto sent_log (new_stream (pos 0))
    ≡ some (record log_stream { terminal = no_terminal })
log_terminal-lost_example =
    log_terminal-lost log_stream (new_stream (pos 0)) sent_log (inl refl) sends_log

-- Standard input as an output is refused, unless a closed stream stands before it.
abbrev bad_stdin : StreamControl
bad_stdin = record sent_log { stream_fd = pos 0 }

abbrev closed_stderr : StreamControl
closed_stderr = record sent_log { stream_fd = pos 2; disposition = DispositionProto.close }

refused : validate_streams (bad_stdin ∷ []) ≡ false
unfolding validate_streams is_valid_stream
refused = refl

abbrev update_event : Event
update_event =
    Event.parameter_update
      (record { name = 112 ∷ []; value = list (cons (bytes (1 ∷ 2 ∷ [])) nil) })
