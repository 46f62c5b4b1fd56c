-- ===== src/Amdtp/Config/Parameters.antt =====
-- What `amdtp_stream_set_parameters` makes of a stream.
use snd_firewire_improve.Common.{
  ℕ, zero, suc, ◌+◌, ◌-◌, ◌/◌, ◌%◌, ◌^◌, ◌≤◌, ◌<◌, ◌≡◌, ◌≢◌, ◌⊎◌, ◌∙◌, inl, inr, refl, true, false,
  List, [], ◌∷◌, length, length-set, length-take, get_elem?, get_elem?-set_self, get_elem?-set_ne,
  set, take, some, none, All, ltb, arith,
}
use native.Mathlib.Decide.{ℕ_discrete}
use snd_firewire_improve.Amdtp.Types.{Sfc, sfc_32000, rate_table, syt_intervals, Stream}
use snd_firewire_improve.Amdtp.Pointer.{running}
use snd_firewire_improve.Amdtp.Samples.Ring.{Inside, Distinct, IsMapped}
use snd_firewire_improve.Amdtp.Midi.Limit.{IsTuned}
use snd_firewire_improve.Amdtp.Config.{
  init_positions, find_sfc, all_sfcs, set_rate, set_parameters, midi_channels_of,
}

-- The loop over the positions writes i at each place i that it reaches.
length-init_positions : (n i : ℕ) (ps : List ℕ) → length (init_positions n i ps) ≡ length ps
unfolding init_positions
length-init_positions zero i ps = refl
length-init_positions (suc n) i ps =
    length-init_positions n (i + 1) (set ps i (i % 256)) ∙ length-set ps i (i % 256)

before_positions :
    (n i j : ℕ) (ps : List ℕ) → j < i → get_elem? (init_positions n i ps) j ≡ get_elem? ps j
unfolding init_positions
before_positions zero i j ps h = refl
before_positions (suc n) i j ps h =
    before_positions n (i + 1) j (set ps i (i % 256)) (omega arith)
    ∙ get_elem?-set_ne ps {i = i} {j = j} (i % 256) (omega arith)

get-init_positions :
    (n i j : ℕ) (ps : List ℕ)
    → i ≤ j
    → j < i + n
    → i + n ≤ length ps
    → j < 256
    → get_elem? (init_positions n i ps) j ≡ some j
unfolding init_positions
get-init_positions zero i j ps h l r b = absurd (omega arith)
get-init_positions (suc n) i j ps h l r b = elim (ℕ_discrete i j) [
  | yes e ↦
      let m : j % 256 ≡ j = omega arith in
      let at =
        before_positions n (i + 1) i (set ps i (i % 256)) (omega arith)
        ∙ get_elem?-set_self ps i (i % 256) (omega arith) in
      ground (arith, at)
  | no d ↦
      get-init_positions n (i + 1) j (set ps i (i % 256)) (omega arith) (omega arith)
        (omega (arith, length-set ps i (i % 256))) b
]

-- A list whose c-th entry is k + c.
abbrev Counts : ℕ → List ℕ → Type 0
Counts k [] = Unit
Counts k (p ∷ ps) = (p ≡ k) × Counts (k + 1) ps

Counts-take :
    (n k : ℕ) (xs : List ℕ)
    → ((c : ℕ) → c < n → get_elem? xs c ≡ some (k + c))
    → Counts k (take n xs)
Counts-take zero k xs h = tt
Counts-take (suc n) k [] h = tt
Counts-take (suc n) k (x ∷ xs) h =
    let z : k + 0 ≡ k = omega arith in
    let e = h 0 (omega arith) in
    (
      ground arith,
      Counts-take n (k + 1) xs
          (λ c l. let a : k + suc c ≡ k + 1 + c = omega arith in rw a at (h (suc c) (omega arith))),
    )

Counts-Inside : (k m : ℕ) (ps : List ℕ) → Counts k ps → k + length ps ≤ m → Inside m ps
Counts-Inside k m [] c h = tt
Counts-Inside k m (p ∷ ps) c h = (omega arith, Counts-Inside (k + 1) m ps c.1 (omega arith))

Counts-above : (k p : ℕ) (ps : List ℕ) → Counts k ps → p < k → All (λ q. p ≢ q) ps
Counts-above k p [] c h = tt
Counts-above k p (q ∷ ps) c h = (omega arith, Counts-above (k + 1) p ps c.1 (omega arith))

Counts-Distinct : (k : ℕ) (ps : List ℕ) → Counts k ps → Distinct ps
Counts-Distinct k [] c = tt
Counts-Distinct k (p ∷ ps) c =
    (Counts-above (k + 1) p ps c.1 (omega arith), Counts-Distinct (k + 1) ps c.1)

-- The table holds the rates of the codes and no other.
find_rate : (sfc : Sfc) → find_sfc all_sfcs (rate_table sfc) ≡ some sfc
unfolding find_sfc
find_rate sfc_32000 = refl
find_rate _ = refl

find_unknown :
    (l : List Sfc) (rate : ℕ) → ((sfc : Sfc) → rate_table sfc ≢ rate) → find_sfc l rate ≡ none
unfolding find_sfc
find_unknown [] rate h = refl
find_unknown (sfc ∷ rest) rate h = ground (arith, h sfc, find_unknown rest rate h)

-- The stream that the parameters ask for.
pub record IsConfigured (s : Stream) (sfc : Sfc) (channels ports : ℕ) : Type 0 where
  pub code : s.sfc ≡ sfc
  pub pcm : s.pcm_channels ≡ channels
  pub midi : s.midi_ports ≡ ports
  pub interval : s.syt_interval ≡ syt_intervals sfc
  pub quadlets : s.data_block_quadlets ≡ channels + (ports + 7) / 8
  pub midi_behind : s.midi_position ≡ channels
  pub midi_inside : 0 < ports → s.midi_position < s.data_block_quadlets
  pub mapped : IsMapped s
  pub tuned : IsTuned s

default_map :
    (s : Stream) (sfc : Sfc) (rate channels ports : ℕ)
    → length s.pcm_positions ≡ 64
    → channels ≤ 64
    → ports ≤ 8
    → IsMapped (set_rate s sfc rate channels ports)
unfolding set_rate
default_map s sfc rate channels ports l c p =
    let counts = Counts-take channels 0 (init_positions channels 0 s.pcm_positions) (λ j h.
      let z : 0 + j ≡ j = omega arith in
      rw z (
        get-init_positions channels 0 j s.pcm_positions (omega arith) (omega arith) (omega arith)
          (omega arith))) in
    let size = length-take channels (init_positions channels 0 s.pcm_positions) in
    record {
      inside = Counts-Inside 0 _ _ counts (omega (arith, size));
      distinct = Counts-Distinct 0 _ counts;
    }

IsTuned-rate :
    (s : Stream) (sfc : Sfc) (channels ports : ℕ)
    → IsTuned (set_rate s sfc (rate_table sfc) channels ports)
unfolding set_rate
IsTuned-rate s sfc_32000 channels ports = omega arith
IsTuned-rate s _ channels ports = omega arith

configured :
    (s : Stream) (sfc : Sfc) (channels ports : ℕ)
    → length s.pcm_positions ≡ 64
    → channels ≤ 64
    → ports ≤ 8
    → IsConfigured (set_rate s sfc (rate_table sfc) channels ports) sfc channels ports
unfolding set_rate
configured s sfc channels ports l c p = record {
  code = refl;
  pcm = refl;
  midi = refl;
  interval = refl;
  quadlets = omega arith;
  midi_behind = omega arith;
  midi_inside = λ h. omega arith;
  mapped = default_map s sfc (rate_table sfc) channels ports l c p;
  tuned = IsTuned-rate s sfc channels ports;
}

-- At a rate of the table, with 64 channels and 8 ports at most and a table of 64 positions, a stream
-- that is not running is configured as asked: the code, the SYT interval and the numbers are those
-- asked for, the channels of a data block have places of their own inside it, the MIDI channel is the
-- one behind them and inside the block where there are ports, and the MIDI limit fits the rate.
pub set_parameters-IsConfigured :
    (s : Stream) (sfc : Sfc) (channels ports : ℕ)
    → running s ≡ false
    → length s.pcm_positions ≡ 64
    → channels ≤ 64
    → ports ≤ 8
    → IsConfigured (set_parameters s (rate_table sfc) channels ports) sfc channels ports
unfolding set_parameters
set_parameters-IsConfigured s sfc channels ports r l c p =
    let ok_pcm : ltb 64 channels ≡ false = ground arith in
    let ok_midi : ltb 1 (midi_channels_of ports) ≡ false = ground arith in
    let t = set_rate s sfc (rate_table sfc) channels ports in
    let same : set_parameters s (rate_table sfc) channels ports ≡ t =
      ground (arith, find_rate sfc) in
    rw same (configured s sfc channels ports l c p)

-- In every other case nothing is changed: a running stream, too many channels or ports, or a rate
-- that is not in the table.
pub set_parameters_refused :
    (s : Stream) (rate channels ports : ℕ)
    → ports < 2 ^ 32 - 7
    → (running s ≡ true) ⊎ ((64 < channels) ⊎ ((8 < ports) ⊎ ((sfc : Sfc) → rate_table sfc ≢ rate)))
    → set_parameters s rate channels ports ≡ s
unfolding set_parameters
set_parameters_refused s rate channels ports w (inl h) = ground arith
set_parameters_refused s rate channels ports w (inr (inl h)) = ground arith
set_parameters_refused s rate channels ports w (inr (inr (inl h))) = ground arith
set_parameters_refused s rate channels ports w (inr (inr (inr h))) =
    ground (arith, find_unknown all_sfcs rate h)
