-- ===== src/Digi00x/Message.antt =====
-- Messages of Digi 002/003 devices: the handler of the asynchronous messages that they send, and the
-- control messages that are sent to them. `none` is a fault: an access outside the data of a message,
-- or through a null pointer.
pub mod Route
use snd_firewire_improve.Common.{
  ℕ, zero, suc, ◌+◌, ◌-◌, ◌*◌, ◌/◌, ◌%◌, ◌^◌, Bool, true, false, ◌&&◌, ◌==◌, ltb, if◌then◌else◌,
  bit_or, List, [], ◌∷◌, ◌++◌, length, get_elem?, Option, none, some, ◌>>=◌,
}

-- `struct snd_dg00x` as far as messages use it, with its device. `id` stands for its address. `in_control` and `out_control` are
-- MIDI substreams; `received` are the bytes handed to `in_control`, the latest first, and `woken`
-- counts the wake-ups of `hwdep_wait`.
pub record Dg00x : Type 0 where
  pub id : ℕ
  pub card : ℕ
  pub node_id : ℕ
  pub msg : ℕ
  pub in_control : Option ℕ
  pub out_control : Option ℕ
  pub received : List (List ℕ)
  pub woken : ℕ

-- n bytes of a message from an offset.
unfoldable pub bytes_at : List ℕ → ℕ → ℕ → Option (List ℕ)
bytes_at bytes p zero = some []
bytes_at bytes p (suc n) =
    get_elem? bytes p >>= λ b. bytes_at bytes (p + 1) n >>= λ bs. some (b ∷ bs)

-- `handle_unknown_message`
unfoldable pub handle_unknown_message : Dg00x → List ℕ → Option Dg00x
handle_unknown_message d bytes = get_elem? bytes 0 >>= λ a. get_elem? bytes 1 >>= λ b.
    get_elem? bytes 2 >>= λ c. get_elem? bytes 3 >>= λ e.
    some (record d { msg = ((a * 256 + b) * 256 + c) * 256 + e; woken = d.woken + 1 })

-- A call of `snd_rawmidi_receive`.
abbrev pub receive : Dg00x → List ℕ → Dg00x
receive d bytes = record d { received = bytes ∷ d.received }

-- The loop of `handle_midi_control`; `n` quadlets are left from offset p on.
unfoldable pub receive_quadlets : ℕ → ℕ → Dg00x → List ℕ → Option Dg00x
receive_quadlets zero p d bytes = some d
receive_quadlets (suc n) p d bytes = get_elem? bytes (p + 3) >>= λ label.
    let handed = bytes_at bytes (p + 1) (label % 16) >>= λ bs.
    receive_quadlets n (p + 4) (receive d bs) bytes in
    let next = receive_quadlets n (p + 4) d bytes in if ltb 0 (label % 16) then handed else next

-- `handle_midi_control`
unfoldable pub handle_midi_control : Dg00x → List ℕ → Option Dg00x
handle_midi_control d bytes = elim d.in_control [
  | none ↦ some d
  | some substream ↦ receive_quadlets (length bytes / 4) 0 d bytes
]

-- Whether an entry of `instances` is for the sender.
abbrev pub is_sender : ℕ → ℕ → Option Dg00x → Bool
is_sender card source none = false
is_sender card source (some d) = d.card == card && d.node_id == source

-- The call of a handler with the instance at which the search ends, a null pointer perhaps.
abbrev pub call_with : (Dg00x → Option Dg00x) → Option Dg00x → Option (Option Dg00x)
call_with handler none = none
call_with handler (some d) = handler d >>= λ d'. some (some d')

-- The search of `handle_message` and what follows it: the search ends at the first instance for the
-- sender, or else at the last entry of `instances`.
unfoldable pub dispatch :
    (Dg00x → Option Dg00x) → ℕ → ℕ → List (Option Dg00x) → Option (List (Option Dg00x))
dispatch handler card source [] = some []
dispatch handler card source (i ∷ []) = call_with handler i >>= λ i'. some (i' ∷ [])
dispatch handler card source (i ∷ j ∷ is) =
    let here = call_with handler i >>= λ i'. some (i' ∷ (j ∷ is)) in
    let rest = dispatch handler card source (j ∷ is) >>= λ is'. some (i ∷ is') in
    if is_sender card source i then here else rest

-- `handle_message`, for the offset that the core gave to `async_handler`.
unfoldable pub handle_message :
    ℕ → ℕ → ℕ → ℕ → List ℕ → List (Option Dg00x) → Option (List (Option Dg00x))
handle_message handler_offset card source offset bytes instances =
    if offset == handler_offset
    then dispatch (λ d. handle_unknown_message d bytes) card source instances
    else if offset == handler_offset + 4
    then dispatch (λ d. handle_midi_control d bytes) card source instances
    else some instances

-- The loops over `instances` of `snd_dg00x_protocol_add_instance` and
-- `snd_dg00x_protocol_remove_instance`.
unfoldable pub add_instance : Dg00x → List (Option Dg00x) → List (Option Dg00x)
add_instance d [] = []
add_instance d (none ∷ is) = some d ∷ is
add_instance d (some i ∷ is) = some i ∷ add_instance d is

unfoldable pub remove_instance : Dg00x → List (Option Dg00x) → List (Option Dg00x)
remove_instance d [] = []
remove_instance d (none ∷ is) = none ∷ remove_instance d is
remove_instance d (some i ∷ is) =
    let rest = some i ∷ remove_instance d is in if i.id == d.id then none ∷ is else rest

-- The loop of `send_midi_control` on fuel: `transmit` gives the bytes of the n-th call of
-- `snd_rawmidi_transmit`, two at most, and the bytes 1 and 2 of `buf` stay from one round to the
-- next. The result is the quadlets that are sent, as bytes.
unfoldable pub send_from : ℕ → (ℕ → List ℕ) → ℕ → ℕ → ℕ → Option (List (List ℕ))
send_from zero transmit n b1 b2 = none
send_from (suc fuel) transmit n b1 b2 =
    send_bytes (transmit n) b1 b2 (send_from fuel transmit (n + 1))
  where
    send_bytes : List ℕ → ℕ → ℕ → (ℕ → ℕ → Option (List (List ℕ))) → Option (List (List ℕ))
    send_bytes [] c1 c2 rest = some []
    send_bytes (x ∷ []) c1 c2 rest = rest x c2 >>= λ qs. some ((0x80 ∷ x ∷ c2 ∷ 0xc1 ∷ []) ∷ qs)
    send_bytes (x ∷ y ∷ zs) c1 c2 rest = rest x y >>= λ qs. some ((0x80 ∷ x ∷ y ∷ 0xc2 ∷ []) ∷ qs)
