-- ===== src/Capcom/Clients.antt =====
-- capcom/state_machine.cc: HandleAdminCommand against the set of clients that need the subsystem.
use adastra.Prelude.{
  ℕ, ◌/◌, ◌≡◌, ◌≢◌, refl, ◌<◌, ◌≤◌, ◌∙◌, true, false, ◌==◌, if◌then◌else◌, arith, length,
  Bool-cases, inl, inr,
}
use adastra.Capcom.States.{AdminState, OperState}
use adastra.Capcom.BitSet.{BitSet, set, clear, contains, is_empty}
use adastra.Capcom.BitSet.Laws.{
  IsBitSet, contains-set, contains-clear, set_beyond, is_empty-none, not-is_empty,
}
use adastra.Capcom.BitSet.Words.{clear-IsBitSet}
use adastra.Capcom.Message.{Message}
use adastra.Capcom.Subsystem.{Subsystem, no_client}
use adastra.Capcom.Machine.{record_client, handle_admin_command}
use adastra.Capcom.Keeps.{notify_parents-Keeps}

-- The clients after the command, and the state that it asks for.
clients_after :
    (m : Message) (a b : OperState) (s : Subsystem)
    → (handle_admin_command m a b s).0.active_clients ≡ (record_client m s).active_clients
unfolding handle_admin_command
clients_after m a b s = ground (arith, notify_parents-Keeps (record_client m s))

next_after :
    (m : Message) (a b : OperState) (s : Subsystem)
    → (handle_admin_command m a b s).1
      ≡ (if is_empty (record_client m s).active_clients then b else a)
unfolding handle_admin_command
next_after m a b s = refl

online_clients :
    (m : Message) (s : Subsystem)
    → m.admin ≡ AdminState.online
    → m.client_id ≢ no_client
    → (record_client m s).active_clients ≡ set m.client_id s.active_clients
unfolding record_client
online_clients m s h k = ground arith

offline_clients :
    (m : Message) (s : Subsystem)
    → m.admin ≡ AdminState.offline
    → m.client_id ≢ no_client
    → (record_client m s).active_clients ≡ clear m.client_id s.active_clients
unfolding record_client
offline_clients m s h k = ground arith

nonempty_of : (bits : BitSet) (j : ℕ) → contains j bits ≡ true → is_empty bits ≡ false
nonempty_of bits j h = elim (Bool-cases (is_empty bits)) [
  | inl e ↦ absurd (cc (is_empty-none bits e j))
  | inr e ↦ e
]

-- What is left after a clear is another client.
still_there :
    (id j : ℕ) (bits : BitSet)
    → contains j (clear id bits) ≡ true
    → (j ≢ id → contains j bits ≡ false)
    → ⊥
still_there id j bits h alone = elim (Bool-cases (id == j)) [
  | inl same ↦ ground (arith, contains-clear id j bits)
  | inr other ↦ ground (arith, contains-clear id j bits, alone (λ e. ground arith))
]

-- A client whose id is not kNoClient and whose word is in the set or just past it, and that asks to
-- go online, is recorded; nothing else about the clients changes; and HandleAdminCommand answers
-- the state for active clients.
pub admin_online :
    (m : Message) (a b : OperState) (s : Subsystem)
    → m.admin ≡ AdminState.online
    → m.client_id ≢ no_client
    → m.client_id / 64 ≤ length s.active_clients
    → ((handle_admin_command m a b s).1 ≡ a)
      × ((j : ℕ)
          → contains j (handle_admin_command m a b s).0.active_clients
            ≡ (if m.client_id == j then true else contains j s.active_clients))
admin_online m a b s h k fits =
    let here : contains m.client_id (set m.client_id s.active_clients) ≡ true =
      ground (arith, contains-set m.client_id m.client_id s.active_clients fits) in
    (
      rw
          (
            next_after m a b s,
            online_clients m s h k,
            nonempty_of (set m.client_id s.active_clients) m.client_id here,
          )
          refl,
      λ j.
          rw (clients_after m a b s, online_clients m s h k)
            (contains-set m.client_id j s.active_clients fits),
    )

-- A client that is not kNoClient and whose id lies past the set and the word after it is not
-- recorded when it asks to go online: on an empty set HandleAdminCommand answers the state for no
-- active clients.
pub admin_online_lost :
    (m : Message) (a b : OperState) (s : Subsystem)
    → m.admin ≡ AdminState.online
    → m.client_id ≢ no_client
    → length s.active_clients < m.client_id / 64
    → is_empty s.active_clients ≡ true
    → ((handle_admin_command m a b s).1 ≡ b)
      × ((handle_admin_command m a b s).0.active_clients ≡ s.active_clients)
admin_online_lost m a b s h k far e =
    let lost : (record_client m s).active_clients ≡ s.active_clients =
      online_clients m s h k ∙ set_beyond m.client_id s.active_clients far in
    (rw (next_after m a b s, lost, e) refl, clients_after m a b s ∙ lost)

-- On a set of 64-bit words, after the command to go offline of a client that is not kNoClient,
-- HandleAdminCommand answers the state for no active clients if no other client was recorded, and
-- the one for active clients if another was.
pub admin_offline :
    (m : Message) (a b : OperState) (s : Subsystem)
    → m.admin ≡ AdminState.offline
    → m.client_id ≢ no_client
    → IsBitSet s.active_clients
    → (((j : ℕ) → j ≢ m.client_id → contains j s.active_clients ≡ false)
        → (handle_admin_command m a b s).1 ≡ b)
      × ((j : ℕ)
          → j ≢ m.client_id
          → contains j s.active_clients ≡ true
          → (handle_admin_command m a b s).1 ≡ a)
admin_offline m a b s h k v =
    let cleared = clear m.client_id s.active_clients in
    (
      λ alone. elim (Bool-cases (is_empty cleared)) [
        | inl e ↦ rw (next_after m a b s, offline_clients m s h k, e) refl
        | inr e ↦
            let (j, there) =
              not-is_empty cleared (clear-IsBitSet m.client_id s.active_clients v) e in
            absurd (still_there m.client_id j s.active_clients there (alone j))
      ],
      λ j other there.
          rw
            (
              next_after m a b s,
              offline_clients m s h k,
              nonempty_of cleared j (ground (arith, contains-clear m.client_id j s.active_clients)),
            )
            refl,
    )
