-- ===== src/Digi00x/Tests.antt =====
-- The theorems on the encoding and on messages, at concrete data.
use snd_firewire_improve.Common.{ℕ, ◌<◌, ◌≡◌, refl, List, [], ◌∷◌, none, some, arith}
use snd_firewire_improve.Digi00x.Dot.{DotState, init_state}
use snd_firewire_improve.Digi00x.Dot.Decode.{encode_all, decode_all, decode_all-encode_all}
use snd_firewire_improve.Amdtp.Samples
use snd_firewire_improve.Amdtp.Tests.{some_pcm, some_stream}
use snd_firewire_improve.Digi00x.Dot.{encode_s32, write_pcm}
use snd_firewire_improve.Digi00x.Dot.Write.{IsSamePlain, write_pcm-write}
use snd_firewire_improve.Digi00x.Message.{Dg00x, handle_message}
use snd_firewire_improve.Digi00x.Message.Route.{handle_message-sender, handle_message-stranger}

-- Three samples, with silence behind the first.
abbrev some_samples : List ℕ
some_samples = 0x40123456 ∷ 0x40000000 ∷ 0x40ff80ff ∷ []

decode_all-encode_all_example :
    (s : DotState) × (out : List ℕ) × (encode_all init_state some_samples ≡ some (s, out))
    × (decode_all init_state out ≡ some (s, some_samples))
decode_all-encode_all_example = decode_all-encode_all some_samples init_state (omega arith)

abbrev some_instance : Dg00x
some_instance = record {
  id = 1;
  card = 0;
  node_id = 7;
  msg = 0;
  in_control = some 3;
  out_control = none;
  received = [];
  woken = 0;
}

abbrev other_instance : Dg00x
other_instance = record some_instance { id = 2; node_id = 5 }

abbrev some_message : List ℕ
some_message = 0x80 ∷ 0x90 ∷ 0x40 ∷ 0xc2 ∷ []

-- A note on, with a quadlet behind it that carries nothing.
abbrev some_quadlets : List (ℕ × ℕ × ℕ × ℕ)
some_quadlets = (0x80, 0x90, 0x40, 0xc2) ∷ (0x80, 0, 0, 0) ∷ (0x80, 0x7f, 0, 0xc1) ∷ []

handle_message-sender_example :
    (handle_message 4096 0 7 4096 some_message
        (some other_instance ∷ some some_instance ∷ none ∷ [])
      ≡ some (
          some other_instance
          ∷ some (record some_instance { msg = 0x809040c2; woken = 1 })
          ∷ none
          ∷ []))
    × (handle_message 4096 0 7 4100
          (0x80 ∷ 0x90 ∷ 0x40 ∷ 0xc2 ∷ 0x80 ∷ 0 ∷ 0 ∷ 0 ∷ 0x80 ∷ 0x7f ∷ 0 ∷ 0xc1 ∷ [])
          (some other_instance ∷ some some_instance ∷ none ∷ [])
        ≡ some (
            some other_instance
            ∷ some (record some_instance { received = (0x7f ∷ []) ∷ (0x90 ∷ 0x40 ∷ []) ∷ [] })
            ∷ none
            ∷ []))
handle_message-sender_example =
    handle_message-sender 4096 0 7 0x80 0x90 0x40 0xc2 [] some_quadlets (some other_instance ∷ [])
      (none ∷ []) some_instance 3 (refl, tt) refl refl
      (omega arith, (omega arith, (omega arith, tt)))

handle_message-stranger_example :
    (handle_message 4096 0 3 4096 some_message (some some_instance ∷ none ∷ []) ≡ none)
    × (handle_message 4096 0 3 4100 some_message (some some_instance ∷ none ∷ []) ≡ none)
handle_message-stranger_example =
    handle_message-stranger 4096 0 3 some_message (some some_instance ∷ []) (refl, tt)

-- A frame of two channels.
write_pcm-write_example :
    (t : DotState) × (out' : List ℕ) × (write_pcm encode_s32 init_state some_stream some_pcm
        (0 ∷ 0 ∷ 0 ∷ [])
        0
        1
      ≡ some (t, out'))
    × (t.carry < 256)
    × IsSamePlain (0x40123456 ∷ 0x40123456 ∷ 0 ∷ []) out'
unfolding Samples.write Samples.write_frames Samples.write_channels encode_s32
write_pcm-write_example =
    write_pcm-write encode_s32 init_state some_stream some_pcm (0 ∷ 0 ∷ 0 ∷ []) 0 1
      {out = 0x40123456 ∷ 0x40123456 ∷ 0 ∷ []} (omega arith) refl
