-- ===== src/Capcom/Alarm.antt =====
-- common/alarm.h: an alarm as it is raised and sent. The text of its details is left out, and the
-- id "name/type" is the pair of the two.
use adastra.Prelude.{ℕ}

pub data AlarmType : Type 0 where
  unknown process subsystem system : AlarmType

pub data Severity : Type 0 where
  unknown warning error critical : Severity

pub data Reason : Type 0 where
  unknown crashed broken emergency_abort : Reason

pub data AlarmStatus : Type 0 where
  unknown raised cleared : AlarmStatus

pub record Alarm : Type 0 where
  pub id : ℕ × AlarmType
  pub name : ℕ
  pub type : AlarmType
  pub severity : Severity
  pub reason : Reason
  pub status : AlarmStatus
