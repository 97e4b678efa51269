-- ===== src/Capcom/Tests/Ending.antt =====
-- Crashes and restarts of the sample subsystem, and the commands of its clients.
use adastra.Prelude.{ℕ, ◌≡◌, ◌≢◌, refl, true, false, [], ◌∷◌, pos, ◌==◌, if◌then◌else◌, arith}
use adastra.Capcom.States.{AdminState, OperState}
use adastra.Capcom.BitSet.{contains}
use adastra.Capcom.Message.{Message, Code, blank}
use adastra.Capcom.Subsystem.{Subsystem}
use adastra.Capcom.Machine.{handle_admin_command}
use adastra.Capcom.Restart.{restart_after_crash}
use adastra.Capcom.Clients.{admin_online, admin_offline}
use adastra.Capcom.Budget.{Budget}
use adastra.Capcom.Budget.Crash.{restart_after_crash-Budget}
use adastra.Capcom.Tests.Samples.{fresh, flying, calm, locals_for, go_online, go_offline}

budgeted : Budget 3 flying
budgeted = record {
  limit = refl;
  within = ground arith;
  delay_low = ground arith;
  delay_high = ground arith;
}

restart_after_crash-Budget_example :
    Budget 3
      (restart_after_crash calm [] 33 5 false (pos 11) flying (locals_for OperState.online)).sub
restart_after_crash-Budget_example =
    restart_after_crash-Budget 3 calm [] 33 5 false (pos 11) flying (locals_for OperState.online)
      budgeted

abbrev exhausted : Subsystem
exhausted = record flying { num_restarts = 3 }

admin_online_example :
    ((handle_admin_command go_online OperState.starting_children OperState.offline fresh).1
      ≡ OperState.starting_children)
    × ((j : ℕ)
        → contains j
            (handle_admin_command go_online OperState.starting_children OperState.offline
              fresh).0.active_clients
          ≡ (if 5 == j then true else contains j []))
admin_online_example =
    admin_online go_online OperState.starting_children OperState.offline fresh refl (ground arith)
      (ground arith)

abbrev far : Message
far = record (blank Code.change_admin) { client_id = 64; admin = AdminState.online }

admin_offline_example :
    (((j : ℕ) → j ≢ 5 → contains j (32 ∷ []) ≡ false)
      → (handle_admin_command go_offline OperState.online OperState.stopping_processes flying).1
        ≡ OperState.stopping_processes)
    × ((j : ℕ)
        → j ≢ 5
        → contains j (32 ∷ []) ≡ true
        → (handle_admin_command go_offline OperState.online OperState.stopping_processes flying).1
          ≡ OperState.online)
admin_offline_example =
    admin_offline go_offline OperState.online OperState.stopping_processes flying refl
      (ground arith) (ground arith, tt)
