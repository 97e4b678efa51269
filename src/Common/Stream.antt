-- ===== src/Common/Stream.antt =====
-- common/stream.h and stream.cc: the streams of a process, and the messages of proto/stream.proto
-- that they are sent as. A message is the record of its fields, an absent submessage `none`.
pub mod Proto
pub mod RoundTrip
pub mod Validation
use adastra.Prelude.{
  ℕ, Bool, true, false, ◌&&◌, ◌||◌, not, Option, none, some, List, [], ◌∷◌, ℤ, pos, int_eq, Text,
  if◌then◌else◌,
}

pub record Terminal : Type 0 where
  pub name : Text
  pub rows : ℤ
  pub cols : ℤ

pub data Disposition : Type 0 where
  stage_zero client file fd close log syslog : Disposition

pub data Direction : Type 0 where
  default input output : Direction

-- std::variant<std::string, int>.
pub data StreamData : Type 0 where
  filename : Text → StreamData
  fd_number : ℤ → StreamData

pub record Stream : Type 0 where
  pub stream_fd : ℤ
  pub tty : Bool
  pub disposition : Disposition
  pub direction : Direction
  pub data_of : StreamData
  pub terminal : Terminal

abbrev pub is_zero : ℤ → Bool
is_zero n = int_eq n (pos 0)

abbrev pub is_empty : Text → Bool
is_empty [] = true
is_empty (c ∷ t) = false

-- Terminal::IsPresent, and the test at the end of Stream::ToProto.
unfoldable pub is_present : Terminal → Bool
is_present t = not (is_zero t.rows) || not (is_zero t.cols) || not (is_empty t.name)

-- A Terminal and a Stream as they are constructed.
abbrev pub no_terminal : Terminal
no_terminal = record { name = []; rows = pos 0; cols = pos 0 }

abbrev pub new_stream : ℤ → Stream
new_stream n = record {
  stream_fd = n;
  tty = false;
  disposition = Disposition.stage_zero;
  direction = Direction.default;
  data_of = filename [];
  terminal = no_terminal;
}

-- AddStream: one stream for each descriptor.
unfoldable pub add_stream : List Stream → Stream → List Stream
add_stream [] stream = stream ∷ []
add_stream (s ∷ streams) stream =
    let rest = add_stream streams stream in
    if int_eq s.stream_fd stream.stream_fd then stream ∷ streams else s ∷ rest
