-- ===== src/Capcom/Parents.antt =====
-- capcom/state_machine.cc: when a command to go offline takes an online subsystem offline.
use adastra.Prelude.{ℕ, ◌≡◌, ◌≢◌, true, false, List, some, arith, all_of, ap}
use adastra.Capcom.States.{AdminState, OperState}
use adastra.Capcom.BitSet.{contains}
use adastra.Capcom.BitSet.Laws.{IsBitSet}
use adastra.Capcom.Message.{Message, Code, from_pipe}
use adastra.Capcom.Subsystem.{Env, Subsystem, no_client, notify_parents}
use adastra.Capcom.Machine.{
  Locals, Transition, Wake, enter_state, handle_admin_command, after_switch,
}
use adastra.Capcom.Handlers.Online.{
  online_handler, online_message, online_admin, online_rest, admin_offline_at,
}
use adastra.Capcom.Clients.{admin_offline}

-- A client's command to go offline, on which the subsystem leaves when it is not kept.
online_admin-offline :
    (env : Env) (m : Message) (s : Subsystem) (l : Locals)
    → m.admin ≡ AdminState.offline
    → all_of (admin_offline_at env) s.parents ≡ true
    → (handle_admin_command m OperState.online OperState.stopping_processes s).1
      ≡ OperState.stopping_processes
    → ((after_switch (online_admin env m s l) online_rest).next ≡ Transition.leave)
      × ((after_switch (online_admin env m s l) online_rest).sub.oper_state
          ≡ OperState.stopping_processes)
      × ((after_switch (online_admin env m s l) online_rest).sub.admin_state ≡ AdminState.offline)
unfolding online_admin online_rest enter_state
online_admin-offline env m s l a p n = ground arith

online_admin-kept :
    (env : Env) (m : Message) (s : Subsystem) (l : Locals)
    → m.admin ≡ AdminState.offline
    → all_of (admin_offline_at env) s.parents ≡ true
    → (handle_admin_command m OperState.online OperState.stopping_processes s).1 ≡ OperState.online
    → (after_switch (online_admin env m s l) online_rest).next ≡ Transition.stay
unfolding online_admin online_rest
online_admin-kept env m s l a p n = ground arith

online_admin-parent :
    (env : Env) (m : Message) (s : Subsystem) (l : Locals)
    → m.admin ≡ AdminState.offline
    → all_of (admin_offline_at env) s.parents ≡ false
    → after_switch (online_admin env m s l) online_rest
      ≡ record { sub = notify_parents s; locals = l; next = Transition.stay }
unfolding online_admin
online_admin-parent env m s l a p = ground arith

change_admin_code :
    (env : Env) (m : Message) (s : Subsystem) (l : Locals)
    → m.code ≡ Code.change_admin
    → online_message env m.code m s l ≡ online_admin env m s l
unfolding online_message
change_admin_code env m s l c = ap (λ k. online_message env k m s l) c

-- When a client that is not kNoClient tells an online subsystem, whose clients are a set of 64-bit
-- words, to go offline: if a parent is not admin offline, it only notifies its parents and stays;
-- if another client is left, it stays; and otherwise it leaves to stop its processes, admin
-- offline.
pub online-goes-offline :
    (env : Env) (ws : List Wake) (m : Message) (s : Subsystem) (l : Locals)
    → m.code ≡ Code.change_admin
    → m.admin ≡ AdminState.offline
    → m.client_id ≢ no_client
    → IsBitSet s.active_clients
    → (all_of (admin_offline_at env) s.parents ≡ false
        → online_handler env ws s l (from_pipe (some m))
          ≡ record { sub = notify_parents s; locals = l; next = Transition.stay })
      × (all_of (admin_offline_at env) s.parents ≡ true
          → (j : ℕ) → j ≢ m.client_id
          → contains j s.active_clients ≡ true
          → (online_handler env ws s l (from_pipe (some m))).next ≡ Transition.stay)
      × (all_of (admin_offline_at env) s.parents ≡ true
          → ((j : ℕ) → j ≢ m.client_id → contains j s.active_clients ≡ false)
          → ((online_handler env ws s l (from_pipe (some m))).next ≡ Transition.leave)
            × ((online_handler env ws s l (from_pipe (some m))).sub.oper_state
                ≡ OperState.stopping_processes)
            × ((online_handler env ws s l (from_pipe (some m))).sub.admin_state
                ≡ AdminState.offline))
unfolding online_handler
online-goes-offline env ws m s l c a k v =
    let by_code = change_admin_code env m s l c in
    let cases = admin_offline m OperState.online OperState.stopping_processes s a k v in
    (
      λ p. rw by_code (online_admin-parent env m s l a p),
      λ p j other there. rw by_code (online_admin-kept env m s l a p (cases.1 j other there)),
      λ p alone. rw by_code (online_admin-offline env m s l a p (cases.0 alone)),
    )
