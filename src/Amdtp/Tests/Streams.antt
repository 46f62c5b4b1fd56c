-- ===== src/Amdtp/Tests/Streams.antt =====
-- The theorems on rates, time stamps, pointers and set-up, at the stream of 48000 Hz.
use snd_firewire_improve.Common.{
  ◌+◌, ◌*◌, ◌/◌, ◌%◌, ◌≤◌, ◌≡◌, refl, [], ◌∷◌, replicate, some, none, Result, arith,
}
use snd_firewire_improve.Amdtp.Types.{
  sfc_48000, rate_table, ticks_per_cycle, midi_bytes_per_second, Stream,
}
use snd_firewire_improve.Amdtp.Rate.Pace.{blocks_of, blocks_of-eq-rate}
use snd_firewire_improve.Amdtp.Syt.Clock.{after, stamped, sample_time, after-eq-sample_time}
use snd_firewire_improve.Amdtp.Midi.Limit.{total, IsTuned, IsLimited, total_bounded}
use snd_firewire_improve.Amdtp.Pointer.{update_pcm_pointers}
use snd_firewire_improve.Amdtp.Pointer.Ring.{IsPlaced, periods, update_pcm_pointers_lem}
use snd_firewire_improve.Amdtp.Config.{set_parameters}
use snd_firewire_improve.Amdtp.Config.Parameters.{IsConfigured, set_parameters-IsConfigured}
use snd_firewire_improve.Amdtp.Control.{start}
use snd_firewire_improve.Amdtp.Control.Start.{Outcome, start_lem}
use snd_firewire_improve.Amdtp.Tests.{some_env, some_pcm, some_stream}

blocks_of-eq-rate_example : blocks_of 100 some_stream ≡ (100 * rate_table sfc_48000 + 7999) / 8000
blocks_of-eq-rate_example = blocks_of-eq-rate 100 some_stream refl refl

after-eq-sample_time_example :
    ticks_per_cycle * 5 + (after 6 some_stream).last_syt_offset
    ≡ sample_time sfc_48000 (stamped 5 some_stream)
after-eq-sample_time_example = after-eq-sample_time 5 some_stream refl refl

abbrev stamped_stream : Stream
stamped_stream = record some_stream { last_syt_offset = 1024 }

tuned : IsTuned some_stream
tuned = record { limit = refl; positive = omega arith }

limited : IsLimited some_stream
limited = record { bounded = λ p. omega arith }

total_bounded_example :
    rate_table sfc_48000 * total some_env (6 ∷ 6 ∷ 6 ∷ []) some_stream 0
    ≤ 2 * rate_table sfc_48000 + 3 * (midi_bytes_per_second * 8)
total_bounded_example =
    total_bounded some_env (6 ∷ 6 ∷ 6 ∷ []) some_stream 0 (omega arith) tuned limited

placed : IsPlaced some_stream some_pcm
placed = record {
  buffer = omega arith;
  period = omega arith;
  fits = omega arith;
  word = omega arith;
}

update_pcm_pointers_lem_example :
    let t = update_pcm_pointers some_stream some_pcm 6 in
    IsPlaced t some_pcm
    × (t.pcm_buffer_pointer ≡ (30 + 6) % 32)
    × (periods t.log * 16 + t.pcm_period_pointer ≡ periods [] * 16 + 14 + 6)
update_pcm_pointers_lem_example =
    update_pcm_pointers_lem some_stream some_pcm 6 placed (omega arith)

abbrev closed_stream : Stream
closed_stream = record some_stream { context = none; buffer = []; pcm_positions = replicate 64 0 }

set_parameters-IsConfigured_example :
    IsConfigured (set_parameters closed_stream 48000 10 2) sfc_48000 10 2
set_parameters-IsConfigured_example =
    set_parameters-IsConfigured closed_stream sfc_48000 10 2 refl refl (omega arith) (omega arith)

start_lem_example :
    (q : Result (Unit {0}) × Stream) × (start some_env closed_stream 3 2 ≡ some q)
    × Outcome closed_stream q
start_lem_example = start_lem some_env closed_stream 3 2 refl
