-- ===== src/Capcom/Subsystem/Laws.antt =====
-- capcom/subsystem.h: processes behind pointers, and the map from process ids.
use adastra.Prelude.{ℕ, zero, suc, ◌≡◌, refl, List, [], ◌∷◌, arith, some, get_elem?, modify}
use adastra.Capcom.Alarm.{Alarm}
use adastra.Capcom.Process.{Process, set_stopped, raise}
use adastra.Capcom.Message.{send_alarm}
use adastra.Capcom.Subsystem.{
  Subsystem, process_at, update_process, mark_stopped, delete_process_id, raise_alarm, emit,
  find_process,
}

module _ {ℓ} {A : Type ℓ} where
  pub get_elem?-modify :
      (i : ℕ) (f : A → A) (xs : List A) (x : A)
      → get_elem? xs i ≡ some x
      → get_elem? (modify i f xs) i ≡ some (f x)
  unfolding modify
  get_elem?-modify i f [] x h = cc
  get_elem?-modify zero f (y ∷ xs) x h = ground arith
  get_elem?-modify (suc i) f (y ∷ xs) x h = get_elem?-modify i f xs x h

pub process_at-mark_stopped :
    (i : ℕ) (s : Subsystem) (p : Process)
    → process_at i s ≡ some p
    → process_at i (mark_stopped i s) ≡ some (set_stopped p)
unfolding process_at mark_stopped delete_process_id update_process
process_at-mark_stopped i s p h =
    rw (h, mark_stopped) (get_elem?-modify i set_stopped s.processes p h)

pub mark_stopped-effects : (i : ℕ) (s : Subsystem) → (mark_stopped i s).effects ≡ s.effects
unfolding mark_stopped delete_process_id update_process
mark_stopped-effects i s = ground arith

pub raise_alarm-effects :
    (i : ℕ) (a : Alarm) (s : Subsystem) (p : Process)
    → process_at i s ≡ some p
    → (raise_alarm i a s).effects ≡ send_alarm (record a { id = (a.name, a.type) }) ∷ s.effects
unfolding raise_alarm emit update_process raise
raise_alarm-effects i a s p h = rw (h, raise_alarm) refl

-- Marking a process stopped, with DeleteProcessId on its id, does not change what FindProcess
-- answers to any id.
pub find_process-mark_stopped :
    (i id : ℕ) (s : Subsystem) → find_process id (mark_stopped i s) ≡ find_process id s
unfolding find_process mark_stopped delete_process_id update_process
find_process-mark_stopped i id s = ground arith
