-- ===== src/Capcom/Umbilical/Refs.antt =====
-- The reference counting of an umbilical (capcom/umbilical.cc).
use adastra.Prelude.{ℕ, zero, suc, ◌≡◌, refl, ◌+◌, true, false, pos, arith}
use adastra.Capcom.Umbilical.{
  Umbilical, UmbilicalState, precondition, disconnect, is_connected, connect, new_umbilical,
}

-- Precondition on an umbilical that is connected reports it as not closed, so that no connection is
-- started, and the umbilical no longer counts as connected.
pub precondition_drops_connection :
    (u : Umbilical)
    → is_connected u ≡ true
    → ((precondition u).1 ≡ false) × (is_connected (precondition u).0 ≡ false)
unfolding precondition is_connected
precondition_drops_connection u h = ground arith

-- n users that ask for the connection before it is up.
unfoldable pub ask : ℕ → Umbilical → Umbilical
ask zero u = u
ask (suc n) u = (precondition (ask n u)).0

-- n users that let go of it.
unfoldable pub let_go : ℕ → Umbilical → Umbilical
let_go zero u = u
let_go (suc n) u = disconnect false (let_go n u)

ask_refs : (n : ℕ) → (ask (suc n) new_umbilical).dynamic_refs ≡ pos (suc n)
unfolding ask precondition new_umbilical
ask_refs zero = ground arith
ask_refs (suc n) = ground (arith, ask_refs n)

ask_state : (n : ℕ) → (ask (suc n) new_umbilical).state ≡ UmbilicalState.connecting
unfolding ask precondition
ask_state n = refl

let_go_refs :
    (m n : ℕ) (u : Umbilical)
    → u.dynamic_refs ≡ pos (m + suc n)
    → is_connected u ≡ true
    → ((let_go m u).dynamic_refs ≡ pos (suc n)) × (is_connected (let_go m u) ≡ true)
unfolding let_go disconnect is_connected
let_go_refs zero n u r c = (ground arith, c)
let_go_refs (suc m) n u r c =
    let ih = let_go_refs m (suc n) u (ground arith) c in (ground arith, ground arith)

-- The umbilical once n + 1 users have asked and the client's Init has succeeded.
unfoldable pub came_up : ℕ → Umbilical
came_up n = (connect true (ask (suc n) new_umbilical)).0

came_up_lem : (n : ℕ) → ((came_up n).dynamic_refs ≡ pos (suc n)) × (is_connected (came_up n) ≡ true)
unfolding came_up connect is_connected
came_up_lem n = ground (arith, ask_refs n, ask_state n)

last_disconnect :
    (u : Umbilical) → u.dynamic_refs ≡ pos 1 → is_connected (disconnect false u) ≡ false
unfolding disconnect is_connected
last_disconnect u h = ground arith

all_let_go :
    (n : ℕ) (u : Umbilical)
    → u.dynamic_refs ≡ pos (suc n)
    → is_connected u ≡ true
    → is_connected (let_go (suc n) u) ≡ false
unfolding let_go
all_let_go n u r c = last_disconnect (let_go n u) (let_go_refs n 0 u (ground arith) c).0

-- After m + n + 1 users called Precondition on a new umbilical and Connect succeeded, the
-- connection outlives m disconnects, and the last of m + n + 1 closes it.
pub counted_connection :
    (m n : ℕ)
    → (is_connected (let_go m (came_up (m + n))) ≡ true)
      × (is_connected (let_go (suc (m + n)) (came_up (m + n))) ≡ false)
counted_connection m n =
    let up = came_up_lem (m + n) in
    (
      (let_go_refs m n (came_up (m + n)) (ground arith) up.1).1,
      all_let_go (m + n) (came_up (m + n)) up.0 up.1,
    )
