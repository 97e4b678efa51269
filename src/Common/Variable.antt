-- ===== src/Common/Variable.antt =====
-- common/vars.h.
use adastra.Prelude.{Bool, Text}

pub record Variable : Type 0 where
  pub name : Text
  pub value : Text
  pub exported : Bool
