-- ===== src/Capcom/Handlers/Common.antt =====
-- capcom/state_machine.cc: fragments that several handlers repeat.
use adastra.Prelude.{ℕ, Bool, true, false, ◌&&◌, List, [], ◌∷◌, ◌==◌, if◌then◌else◌, insert}
use adastra.Capcom.Process.{Process}
use adastra.Capcom.Message.{StopReason}
use adastra.Capcom.Subsystem.{Subsystem, process_disconnect, each_process}

-- `stop.reason() != StopEvent::SIGNAL`.
abbrev pub exited_of : StopReason → Bool
exited_of StopReason.signal = false
exited_of StopReason.unknown = true
exited_of StopReason.exit = true

-- `child_notified`, with no child notified.
unfoldable pub child_flags : List ℕ → List (ℕ × Bool)
child_flags [] = []
child_flags (c ∷ cs) = insert c false (child_flags cs)

-- No child is left that has not notified.
unfoldable pub all_notified : List (ℕ × Bool) → Bool
all_notified [] = true
all_notified ((c, notified) ∷ rest) = notified && all_notified rest

unfoldable pub disconnect_on : ℕ → Process → Subsystem → Process × Subsystem
disconnect_on compute p s = if p.compute == compute then process_disconnect p s else (p, s)

-- Subsystem::DisconnectProcessesForCompute.
unfoldable pub disconnect_compute : ℕ → Subsystem → Subsystem
unfolding disconnect_on
disconnect_compute compute s = each_process (disconnect_on compute) s
