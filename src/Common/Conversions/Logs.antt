-- ===== src/Common/Conversions/Logs.antt =====
-- common/log.h.
use adastra.Prelude.{ℕ, ◌≡◌, Text, arith}

-- toolbelt::LogLevel.
pub data LogLevel : Type 0 where
  verbose_debug debug info warning error fatal : LogLevel

pub record LogMessage : Type 0 where
  pub source : Text
  pub level : LogLevel
  pub text : Text
  pub timestamp : ℕ

pub data LogLevelProto : Type 0 where
  log_unknown log_verbose log_dbg log_info log_warning log_err other : LogLevelProto

pub record LogMessageProto : Type 0 where
  pub source : Text
  pub level : LogLevelProto
  pub text : Text
  pub timestamp : ℕ

unfoldable pub level_to_proto : LogLevel → LogLevelProto
level_to_proto LogLevel.debug = LogLevelProto.log_dbg
level_to_proto LogLevel.verbose_debug = LogLevelProto.log_verbose
level_to_proto LogLevel.info = LogLevelProto.log_info
level_to_proto LogLevel.warning = LogLevelProto.log_warning
level_to_proto LogLevel.error = LogLevelProto.log_err
level_to_proto LogLevel.fatal = LogLevelProto.log_err

-- LogMessage::ToProto.
unfoldable pub log_to_proto : LogMessage → LogMessageProto
unfolding level_to_proto
log_to_proto m = record {
  source = m.source;
  level = level_to_proto m.level;
  text = m.text;
  timestamp = m.timestamp;
}

unfoldable pub level_from_proto : LogLevelProto → LogLevel
level_from_proto LogLevelProto.log_dbg = LogLevel.debug
level_from_proto LogLevelProto.log_verbose = LogLevel.verbose_debug
level_from_proto LogLevelProto.log_info = LogLevel.info
level_from_proto LogLevelProto.log_warning = LogLevel.warning
level_from_proto LogLevelProto.log_err = LogLevel.error
level_from_proto _ = LogLevel.verbose_debug

-- LogMessage::FromProto.
unfoldable pub log_from_proto : LogMessageProto → LogMessage
unfolding level_from_proto
log_from_proto p = record {
  source = p.source;
  level = level_from_proto p.level;
  text = p.text;
  timestamp = p.timestamp;
}

-- A fatal message is read as an error.
abbrev pub without_fatal : LogLevel → LogLevel
without_fatal LogLevel.fatal = LogLevel.error
without_fatal l = l

pub log-roundtrip :
    (m : LogMessage) → log_from_proto (log_to_proto m) ≡ record m { level = without_fatal m.level }
unfolding log_from_proto log_to_proto
log-roundtrip m = ground arith
