-- ===== src/Fcp/Tests.antt =====
-- A transaction that expects the bytes 1 and 2 of its response.
use snd_firewire_improve.Common.{
  ℕ, ◌≡◌, ◌↔◌, refl, Bool, true, false, List, [], ◌∷◌, some, none, ok, arith,
}
use snd_firewire_improve.Fcp.{
  pending, bus_reset, Device, Transaction, World, is_matching_response, fcp_response,
  fcp_avc_transaction,
}
use snd_firewire_improve.Fcp.Match.{HasBytes, is_matching_response_lem}
use snd_firewire_improve.Fcp.Response.{AllResponded, fcp_response-Responded}
use snd_firewire_improve.Amdtp.Types.{sfc_48000}
use snd_firewire_improve.Fcp.{
  State, started, differs, is_matching, complete_with, copy, respond, respond_all,
}
use snd_firewire_improve.Fcp.General.{
  plug_dir_in, Port, sfc_from, set_frame, get_frame, avc_general_get_sig_fmt,
}
use snd_firewire_improve.Fcp.General.Roundtrip.{avc_general_get_sig_fmt-set_frame}
use snd_firewire_improve.Fcp.Wait.{fcp_avc_transaction_reset}

abbrev some_device : Device
some_device = record { card = 0; generation = 3; node_id = 1 }

abbrev some_transaction : Transaction
some_transaction = record {
  unit = 0;
  device = some_device;
  response_buffer = 0x01 ∷ 0xff ∷ 0x19 ∷ 0x00 ∷ [];
  response_size = 4;
  response_match_bytes = 6;
  state = pending;
  deferrable = true;
}

abbrev some_response : List ℕ
some_response = 0x09 ∷ 0xff ∷ 0x19 ∷ 0x00 ∷ 0x90 ∷ []

is_matching_response_lem_example :
    (d : Bool) × (is_matching_response some_transaction some_response ≡ some d)
    × ((d ≡ true) ↔ HasBytes some_response (0x01 ∷ 0xff ∷ 0x19 ∷ 0x00 ∷ []) 6)
is_matching_response_lem_example =
    is_matching_response_lem some_transaction some_response (omega arith) (omega arith)

fcp_response-Responded_example :
    (us : List Transaction) × (fcp_response (some_transaction ∷ []) some_device some_response
      ≡ some us)
    × AllResponded (some_transaction ∷ []) us
fcp_response-Responded_example =
    fcp_response-Responded (some_transaction ∷ []) some_device some_response
      (record { size = omega arith; mask = omega arith }, tt)

-- A bus on which a reset comes during each wait.
abbrev resetting : World
resetting = record { write = λ _. ok tt; wait = λ _ t. record t { state = bus_reset } }

fcp_avc_transaction_reset_example : fcp_avc_transaction 100 resetting some_transaction ≡ none
fcp_avc_transaction_reset_example =
    fcp_avc_transaction_reset 100 resetting some_transaction (λ _ _ _. refl) (λ _. refl) refl

-- A device whose input plug 0 is at 48 kHz.
abbrev answered : Transaction
answered = record {
  unit = 0;
  device = some_device;
  response_buffer = 0x0c ∷ 0xff ∷ 0x19 ∷ 0 ∷ 0x90 ∷ 2 ∷ 0xff ∷ 0xff ∷ [];
  response_size = 8;
  response_match_bytes = 30;
  state = State.complete;
  deferrable = false;
}

abbrev some_port : Port
some_port = record {
  alloc = true;
  unit = 0;
  device = some_device;
  garbage = false;
  world = record { write = λ _. ok tt; wait = λ _ _. answered };
}

avc_general_get_sig_fmt-set_frame_example :
    avc_general_get_sig_fmt 1 some_port plug_dir_in 0 ≡ some (ok 48000)
unfolding sfc_from set_frame get_frame fcp_response respond_all respond is_matching_response
    is_matching differs complete_with copy started
avc_general_get_sig_fmt-set_frame_example =
    avc_general_get_sig_fmt-set_frame 0 some_port 48000 sfc_48000 plug_dir_in 0 [] [] answered refl
      refl refl refl refl
