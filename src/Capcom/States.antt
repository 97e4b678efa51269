-- ===== src/Capcom/States.antt =====
-- common/states.h: the administrative and operational states of a subsystem.
use adastra.Prelude.{ℕ, Bool, true, false, ◌==◌}

pub data AdminState : Type 0 where
  offline online : AdminState

pub data OperState : Type 0 where
  offline starting_children connecting starting_processes online : OperState
  stopping_processes stopping_children restarting restarting_processes broken degraded : OperState

abbrev pub is_admin_online : AdminState → Bool
is_admin_online AdminState.online = true
is_admin_online AdminState.offline = false

abbrev pub is_admin_offline : AdminState → Bool
is_admin_offline AdminState.offline = true
is_admin_offline AdminState.online = false

-- The enumerator's value, by which `state_funcs_` is indexed.
abbrev pub oper_index : OperState → ℕ
oper_index OperState.offline = 0
oper_index OperState.starting_children = 1
oper_index OperState.connecting = 2
oper_index OperState.starting_processes = 3
oper_index OperState.online = 4
oper_index OperState.stopping_processes = 5
oper_index OperState.stopping_children = 6
oper_index OperState.restarting = 7
oper_index OperState.restarting_processes = 8
oper_index OperState.broken = 9
oper_index OperState.degraded = 10

-- `a == b` on the enumeration.
abbrev pub oper_eq : OperState → OperState → Bool
oper_eq a b = oper_index a == oper_index b
