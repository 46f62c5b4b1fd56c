-- ===== src/Amdtp/Packet/Ready.antt =====
-- A stream that is ready to send: what the memory safety of `handle_out_packet` rests on. Each part
-- names the fields that it speaks of, so that it holds on when others change.
use snd_firewire_improve.Common.{
  ℕ, zero, suc, ◌+◌, ◌*◌, ◌≤◌, ◌<◌, ◌≡◌, ◌⊎◌, false, List, [], ◌∷◌, length, get_elem?, set, Option,
  some, All, ℤ, pos, arith,
}
use snd_firewire_improve.PacketsBuffer.{Packet}
use snd_firewire_improve.Amdtp.Types.{
  queue_length, Sfc, syt_intervals, is_base_44100, initial_data_block, SampleTransfer, write_s16,
  write_s32, MidiTransfer, fill_midi, Pcm, Stream,
}
use snd_firewire_improve.Amdtp.Samples.Ring.{Inside, Distinct, map_of}

-- Every packet of the ring has room for the header and a full set of data blocks.
abbrev pub Room : ℕ → List Packet → Type 0
Room size buffer = All (λ (p : Packet). size ≤ length p.quadlets) buffer

pub record HasRing (buffer : List Packet) (packet_index : ℤ) (interval quadlets : ℕ) : Type 0 where
  pub size : length buffer ≡ queue_length
  pub index : (i : ℕ) → packet_index ≡ pos i → i < queue_length
  pub room : Room (2 + interval * quadlets) buffer

pub record IsRated (sfc : Sfc) (interval state : ℕ) : Type 0 where
  pub interval_of : interval ≡ syt_intervals sfc
  pub state_of : is_base_44100 sfc ≡ false → state ≡ initial_data_block sfc

pub record IsLaid (quadlets : ℕ) (map : List ℕ) (midi_ports midi_position : ℕ)
    (midi : Option MidiTransfer) (samples : Option SampleTransfer) : Type 0 where
  pub inside : Inside quadlets map
  pub distinct : Distinct map
  pub midi_channel : (midi_ports ≡ 0) ⊎ ((midi ≡ some fill_midi) × (midi_position < quadlets))
  pub encoding : (samples ≡ some write_s16) ⊎ (samples ≡ some write_s32)

pub record FitsPcm (pcm : Pcm) (channels pointer period interval : ℕ) : Type 0 where
  pub frame : pcm.frame_samples ≡ channels
  pub pointer_inside : pointer < pcm.buffer_size
  pub period_inside : period < pcm.period_size
  pub fits : pcm.period_size ≤ pcm.buffer_size
  pub word : pcm.buffer_size < 2147483648
  pub area : pcm.buffer_size * channels ≤ length pcm.area
  pub packet : 2 * interval ≤ pcm.period_size

abbrev pub HasPcm : Option Pcm → ℕ → ℕ → ℕ → ℕ → Type 0
HasPcm o channels pointer period interval =
    (pcm : Pcm) → o ≡ some pcm → FitsPcm pcm channels pointer period interval

-- The whole of it.
pub record IsReady (s : Stream) : Type 0 where
  pub ring : HasRing s.buffer s.packet_index s.syt_interval s.data_block_quadlets
  pub rated : IsRated s.sfc s.syt_interval s.data_block_state
  pub laid :
      IsLaid s.data_block_quadlets
        (map_of s)
        s.midi_ports
        s.midi_position
        s.transfer_midi
        s.transfer_samples
  pub pcm_fits :
      HasPcm s.pcm s.pcm_channels s.pcm_buffer_pointer s.pcm_period_pointer s.syt_interval

pub get-Room :
    (size : ℕ) (buffer : List Packet) (i : ℕ) (p : Packet)
    → Room size buffer
    → get_elem? buffer i ≡ some p
    → size ≤ length p.quadlets
get-Room size [] i p r e = cc
get-Room size (q ∷ qs) zero p r e = ground (arith, r.0)
get-Room size (q ∷ qs) (suc i) p r e = get-Room size qs i p r.1 e

pub set-Room :
    (size : ℕ) (buffer : List Packet) (i : ℕ) (p : Packet)
    → Room size buffer
    → size ≤ length p.quadlets
    → Room size (set buffer i p)
set-Room size [] i p r h = tt
set-Room size (q ∷ qs) zero p r h = (h, r.1)
set-Room size (q ∷ qs) (suc i) p r h = (r.0, set-Room size qs i p r.1 h)
