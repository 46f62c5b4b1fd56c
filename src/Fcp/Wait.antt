-- ===== src/Fcp/Wait.antt =====
-- How the wait for a response ends, and how it does not.
use snd_firewire_improve.Common.{ℕ, zero, suc, ◌+◌, ◌≡◌, refl, false, none, ok, arith}
use snd_firewire_improve.Fcp.{bus_reset, Transaction, World, transact, fcp_avc_transaction}

-- A transaction whose state the handlers leave alone once a bus reset has been noted in it, as
-- `fcp_response` and `fcp_bus_reset` do.
abbrev pub StaysReset : World → Type 0
StaysReset world =
    (n : ℕ) (t : Transaction) → t.state ≡ bus_reset → (world.wait n t).state ≡ bus_reset

reset_forever :
    (fuel : ℕ) (world : World) (n left : ℕ) (t : Transaction)
    → StaysReset world
    → ((i : ℕ) → world.write i ≡ ok tt)
    → t.state ≡ bus_reset
    → transact fuel world n left false t ≡ none
unfolding transact
reset_forever zero world n left t s w e = refl
reset_forever (suc fuel) world n left t s w e =
    let u = world.wait n t in
    let f = s n t e in ground (arith, w n, f, reset_forever fuel world (n + 1) left u s w f)

-- Once a bus reset comes during the first wait, the transaction never ends while its writes succeed
-- and the handlers leave a state that notes a bus reset alone, as fcp_response and fcp_bus_reset
-- do: the state is not set back, so that the command is sent again and again and no response is
-- taken.
pub fcp_avc_transaction_reset :
    (fuel : ℕ) (world : World) (t : Transaction)
    → StaysReset world
    → ((i : ℕ) → world.write i ≡ ok tt)
    → (world.wait 0 t).state ≡ bus_reset
    → fcp_avc_transaction fuel world t ≡ none
unfolding fcp_avc_transaction transact
fcp_avc_transaction_reset zero world t s w e = refl
fcp_avc_transaction_reset (suc fuel) world t s w e =
    ground (arith, w 0, e, reset_forever fuel world 1 2 (world.wait 0 t) s w e)
