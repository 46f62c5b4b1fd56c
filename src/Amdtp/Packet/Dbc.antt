-- ===== src/Amdtp/Packet/Dbc.antt =====
-- The data block counter from an out-stream to an in-stream: what one sends the other accepts, and
-- a gap is found.
use snd_firewire_improve.Common.{
  ℕ, zero, suc, ◌+◌, ◌*◌, ◌^◌, ◌<◌, ◌≡◌, ap, ◌≢◌, ◌⊎◌, true, false, ◌==◌, if◌then◌else◌, List,
  Option, none, some, ◌>>=◌, get_elem?, arith,
}
use snd_firewire_improve.Amdtp.Types.{uint_max, Env, Stream}
use snd_firewire_improve.Amdtp.Cip.{header0, header1, packet_dbc, is_lost, next_dbc}
use snd_firewire_improve.Amdtp.Cip.Fields.{IsFramed, header_valid, header_dbc, header_data_blocks}
use snd_firewire_improve.Amdtp.Packet.{
  handle_in_packet, accept, receive_samples, requeue, count_blocks, fail,
}

-- An accepted packet: its samples and MIDI bytes are received if it has any, the counter is set,
-- and the packet is queued again.
abbrev pub deliver : Env → Stream → List ℕ → ℕ → ℕ → Option Stream
deliver env i buffer n counter =
    if n == 0
    then requeue env (record i { data_block_counter = counter }) none 0
    else receive_samples env i buffer n >>= λ s.
        requeue env (record s { data_block_counter = counter }) s.pcm n

-- An in-stream without the quirks that change what the header's fields mean.
pub record IsStandard (i : Stream) : Type 0 where
  pub dbs : i.flags.wrong_dbs ≡ false
  pub start_event : i.flags.dbc_is_end_event ≡ false

-- The quadlets of a packet with the header that the out-stream o writes.
pub record IsFrom (o : Stream) (syt : ℕ) (buffer : List ℕ) : Type 0 where
  pub cip0 : get_elem? buffer 0 ≡ some (header0 o)
  pub cip1 : get_elem? buffer 1 ≡ some (header1 o syt)

-- The counter that is read from a header of o.
dbc_of_header :
    (i o : Stream) (n : ℕ)
    → IsFramed o
    → (i.data_block_counter ≡ o.data_block_counter) ⊎ (i.data_block_counter ≡ uint_max)
    → packet_dbc i (header0 o) n ≡ o.data_block_counter
unfolding packet_dbc
dbc_of_header i o n f e = ground (arith, header_dbc o f)

not_lost :
    (i o : Stream) (n : ℕ)
    → IsStandard i
    → (i.data_block_counter ≡ o.data_block_counter) ⊎ (i.data_block_counter ≡ uint_max)
    → is_lost i o.data_block_counter n ≡ false
unfolding is_lost
not_lost i o n d e = ground arith

next_in_order :
    (i o : Stream) (n : ℕ)
    → IsStandard i
    → next_dbc i o.data_block_counter n ≡ (count_blocks o n).data_block_counter
unfolding next_dbc
next_in_order i o n d = rw d.start_event

accept_in_order :
    (env : Env) (i o : Stream) (buffer : List ℕ) (n : ℕ)
    → IsStandard i
    → (i.data_block_counter ≡ o.data_block_counter) ⊎ (i.data_block_counter ≡ uint_max)
    → accept env i buffer n o.data_block_counter
      ≡ deliver env i buffer n (count_blocks o n).data_block_counter
unfolding accept
accept_in_order env i o buffer zero d e = rw (not_lost i o 0 d e, next_in_order i o 0 d)
accept_in_order env i o buffer (suc n) d e =
    let more : (suc n == 0) ≡ false = ground arith in
    rw (not_lost i o (suc n) d e, more)
      (ap
        (λ (c : ℕ). receive_samples env i buffer (suc n) >>= λ s.
          requeue env (record s { data_block_counter = c }) s.pcm (suc n))
        (next_in_order i o (suc n) d))

-- A packet with the header that an out-stream writes, received in order by an in-stream without
-- quirks, is never refused: its data blocks are counted right and delivered, and the in-stream's
-- counter becomes the out-stream's, so that the next packet is in order too. The first packet is
-- in order at any counter where the check of the first counter is skipped.
pub handle_in_packet-header :
    (env : Env) (i o : Stream) (syt n : ℕ) (buffer : List ℕ)
    → IsFramed o
    → IsFrom o syt buffer
    → syt < 2 ^ 16
    → IsStandard i
    → (i.data_block_counter ≡ o.data_block_counter) ⊎ (i.data_block_counter ≡ uint_max)
    → handle_in_packet env i (2 + n * o.data_block_quadlets) buffer
      ≡ deliver env i buffer n (count_blocks o n).data_block_counter
unfolding handle_in_packet
handle_in_packet-header env i o syt n buffer f b h d e =
    rw (b.cip0, b.cip1)
      (rw (header_valid o syt f h, header_data_blocks i o syt n f h d.dbs, dbc_of_header i o n f e)
        (accept_in_order env i o buffer n d e))

-- Where packets before it are missing, the next packet stops the stream. It is a packet with the
-- header that the out-stream o writes (in range, and with the quadlets that n of its data blocks
-- take), and packets are missing where an in-stream that has accepted one before expects another
-- counter than that of o. The in-stream trusts the packet's data block size and takes its counter
-- for that of its first data block (no quirk WRONG_DBS or DBC_IS_END_EVENT); the packet's counter
-- is not 0, or the check of 0 is not skipped; and the packet is not empty, or its counter is
-- trusted then (no quirk EMPTY_HAS_WRONG_DBC).
pub handle_in_packet_gap :
    (env : Env) (i o : Stream) (syt n : ℕ) (buffer : List ℕ)
    → IsFramed o
    → IsFrom o syt buffer
    → syt < 2 ^ 16
    → IsStandard i
    → i.data_block_counter < 256
    → i.data_block_counter ≢ o.data_block_counter
    → (i.flags.skip_dbc_zero_check ≡ false) ⊎ (o.data_block_counter ≢ 0)
    → (i.flags.empty_has_wrong_dbc ≡ false) ⊎ (0 < n)
    → handle_in_packet env i (2 + n * o.data_block_quadlets) buffer ≡ some (fail i)
unfolding handle_in_packet accept packet_dbc is_lost
handle_in_packet_gap env i o syt n buffer f b h d c ne z w =
    rw (b.cip0, b.cip1)
      (rw (header_valid o syt f h, header_data_blocks i o syt n f h d.dbs, counter_read, lost))
  where
    counter_read : packet_dbc i (header0 o) n ≡ o.data_block_counter
    counter_read = ground (arith, header_dbc o f)

    lost : is_lost i o.data_block_counter n ≡ true
    lost = ground arith
