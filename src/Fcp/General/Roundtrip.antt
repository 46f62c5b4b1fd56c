-- ===== src/Fcp/General/Roundtrip.antt =====
-- The rate that one command sets is the rate that the other one finds.
use snd_firewire_improve.Common.{
  ℕ, suc, ◌≡◌, ◌∙◌, refl, sym, ap, Bool-cases, inl, inr, true, false, ◌&&◌, ◌==◌, bit_and, List, [],
  ◌∷◌, some, >>=-eq-some, ok, arith,
}
use snd_firewire_improve.Amdtp.Types.{
  Sfc, sfc_32000, sfc_44100, sfc_48000, sfc_88200, sfc_96000, sfc_176400, sfc_192000, sfc_code,
  rate_table,
}
use snd_firewire_improve.Fcp.{
  Transaction, World, complete, tail, started, differs, is_matching, is_matching_response, copy,
  complete_with, is_from, respond, respond_all, fcp_response, transact, fcp_avc_transaction,
}
use snd_firewire_improve.Fcp.General.{
  PlugDir, signal_format, Port, sfc_from, sfcs, set_frame, get_frame, rate_of_code, transaction_of,
  check_response, pick_rate, avc_general_get_sig_fmt,
}

sfc_from_lem :
    (candidates : List Sfc) (rate : ℕ) {sfc : Sfc}
    → sfc_from candidates rate ≡ some sfc
    → rate_table sfc ≡ rate
unfolding sfc_from
sfc_from_lem [] rate h = absurd cc
sfc_from_lem (c ∷ cs) rate {sfc = sfc} h = elim (Bool-cases (rate_table c == rate)) [
  | inl y ↦
      let h' = rw y at h in
      let same : c ≡ sfc = cc in let here : rate_table c ≡ rate = ground arith in rw (sym same) here
  | inr n ↦ sfc_from_lem cs rate (rw n at h)
]

-- The code in a frame is the one of its rate.
rate_of_code_lem :
    (sfc : Sfc)
    → rate_of_code sfcs (bit_and 0x07 (bit_and 0x07 (sfc_code sfc))) ≡ some (rate_table sfc)
rate_of_code_lem sfc_32000 = refl
rate_of_code_lem sfc_44100 = refl
rate_of_code_lem sfc_48000 = refl
rate_of_code_lem sfc_88200 = refl
rate_of_code_lem sfc_96000 = refl
rate_of_code_lem sfc_176400 = refl
rate_of_code_lem sfc_192000 = refl

-- The response of a device whose plug has the format that the frame set: the code for STABLE, and the
-- other bytes of the frame.
abbrev pub stable_response : Sfc → PlugDir → ℕ → List ℕ
unfolding set_frame
stable_response sfc dir pid = 0x0c ∷ tail (set_frame sfc dir pid)

-- It is the response that the other command waits for.
respond-stable :
    (port : Port) (sfc : Sfc) (dir : PlugDir) (pid : ℕ)
    → respond
        (transaction_of port (get_frame dir pid) 0x01 30)
        port.device
        (stable_response sfc dir pid)
        0x0c
      ≡ some (record (transaction_of port (get_frame dir pid) 0x01 30) {
        state = complete;
        response_size = 8;
        response_buffer = stable_response sfc dir pid;
      })
unfolding respond is_matching_response is_matching differs complete_with copy get_frame set_frame
    started
respond-stable port sfc dir pid =
    let mine : is_from port.device port.device ≡ true = ground arith in
    let plug : (bit_and 0xff pid == bit_and 0xff pid) ≡ true = ground arith in
    let form : (signal_format dir == signal_format dir) ≡ true = ground arith in
    let whole : (port.garbage && 0x0c == 0x0f) ≡ false = ground arith in
    rw (mine, form, plug, whole) refl

-- A wait that ends with a response ends the transaction.
transact_complete :
    (fuel : ℕ) (world : World) (n left : ℕ) (t u : Transaction)
    → world.write n ≡ ok tt
    → world.wait n t ≡ u
    → u.state ≡ complete
    → transact (suc fuel) world n left false t ≡ some (ok u.response_size, u)
unfolding transact
transact_complete fuel world n left t u w e c =
    let e' : (world.wait n t).state ≡ complete = ap (λ (x : Transaction). x.state) e ∙ c in
    ground (arith, w, e', e)

-- A device that answers the STATUS command for the format of a plug, in the first wait, with the
-- format that the CONTROL command for a rate sent: the rate is found.
pub avc_general_get_sig_fmt-set_frame :
    (fuel : ℕ) (port : Port) (rate : ℕ) (sfc : Sfc) (dir : PlugDir) (pid : ℕ)
    (ts ts' : List Transaction) (t' : Transaction)
    → port.alloc ≡ true
    → port.world.write 0 ≡ ok tt
    → sfc_from sfcs rate ≡ some sfc
    → fcp_response
        (transaction_of port (get_frame dir pid) 0x01 30 ∷ ts)
        port.device
        (0x0c ∷ tail (set_frame sfc dir pid))
      ≡ some (t' ∷ ts')
    → port.world.wait 0 (transaction_of port (get_frame dir pid) 0x01 30) ≡ t'
    → avc_general_get_sig_fmt (suc fuel) port dir pid ≡ some (ok rate)
unfolding fcp_response respond_all avc_general_get_sig_fmt fcp_avc_transaction transact set_frame
    check_response pick_rate
avc_general_get_sig_fmt-set_frame fuel port rate sfc dir pid ts ts' t' al w found h last =
    let t = transaction_of port (get_frame dir pid) 0x01 30 in
    let hit = respond-stable port sfc dir pid in
    let h' = rw hit at h in
    let (us, e, f) =
      >>=-eq-some (respond_all ts port.device (stable_response sfc dir pid) 0x0c) _ h' in
    let done = record t {
      response_buffer = stable_response sfc dir pid;
      response_size = 8;
      state = complete;
    } in
    let same : done ≡ t' = cc in
    let ended = transact_complete fuel port.world 0 2 t done w (last ∙ sym same) refl in
    let code = rate_of_code_lem sfc in
    let value = sfc_from_lem sfcs rate found in rw (al, ended) (rw (code, value) refl)
