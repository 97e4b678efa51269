-- ===== src/Common/Conversions.antt =====
-- common/: structs to and from the messages of proto/. An enumerator's number that the schema does
-- not name is `other`; what a message does not set is its default.
pub mod Alarms
pub mod Statuses
pub mod Logs
pub mod Values
pub mod Events
pub mod RoundTrip
