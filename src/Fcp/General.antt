-- ===== src/Fcp/General.antt =====
-- The AV/C general commands of fcp.c, as frames of 8 bytes. The buffer of a command is the one of
-- its response. `none` is a fault, or the end of the fuel of the transaction.
pub mod Roundtrip
use snd_firewire_improve.Common.{
  ℕ, zero, suc, ◌+◌, ◌-◌, ◌*◌, ◌/◌, ◌%◌, ◌^◌, Bool, true, false, not, ◌&&◌, ◌||◌, ◌==◌, leb, ltb,
  if◌then◌else◌, bit_and, bit_or, min, List, [], ◌∷◌, length, get_elem?, Option, some, none, ◌>>=◌,
  Result, ok, err, eio, enomem, einval, enosys, eagain,
}
use snd_firewire_improve.Amdtp.Types.{
  Sfc, sfc_32000, sfc_44100, sfc_48000, sfc_88200, sfc_96000, sfc_176400, sfc_192000, sfc_code,
  rate_table,
}
use snd_firewire_improve.Fcp.{Device, Transaction, World, started, fcp_avc_transaction}

-- `enum avc_general_plug_dir`
pub data PlugDir : Type 0 where
  plug_dir_in plug_dir_out : PlugDir

-- What a command meets: whether `kzalloc` gives the buffer, the unit and its device, what the stack
-- held where `deferrable` is, and the answers of the bus.
pub record Port : Type 0 where
  pub alloc : Bool
  pub unit : ℕ
  pub device : Device
  pub garbage : Bool
  pub world : World

-- INPUT or OUTPUT PLUG SIGNAL FORMAT
abbrev pub signal_format : PlugDir → ℕ
signal_format plug_dir_in = 0x19
signal_format plug_dir_out = 0x18

-- The search for a rate in `amdtp_rate_table`.
unfoldable pub sfc_from : List Sfc → ℕ → Option Sfc
sfc_from [] rate = none
sfc_from (sfc ∷ sfcs) rate =
    let rest = sfc_from sfcs rate in if rate_table sfc == rate then some sfc else rest

abbrev pub sfcs : List Sfc
sfcs = sfc_32000 ∷ sfc_44100 ∷ sfc_48000 ∷ sfc_88200 ∷ sfc_96000 ∷ sfc_176400 ∷ sfc_192000 ∷ []

-- The command frames.
unfoldable pub set_frame : Sfc → PlugDir → ℕ → List ℕ
set_frame sfc dir pid =
    0x00
    ∷ 0xff
    ∷ signal_format dir
    ∷ bit_and 0xff pid
    ∷ 0x90
    ∷ bit_and 0x07 (sfc_code sfc)
    ∷ 0xff
    ∷ 0xff
    ∷ []

unfoldable pub get_frame : PlugDir → ℕ → List ℕ
get_frame dir pid =
    0x01 ∷ 0xff ∷ signal_format dir ∷ bit_and 0xff pid ∷ 0x90 ∷ 0xff ∷ 0xff ∷ 0xff ∷ []

unfoldable pub plug_info_frame : ℕ → ℕ → ℕ → List ℕ
plug_info_frame subunit_type subunit_id subfunction =
    0x01
    ∷ bit_or (bit_and subunit_type 0x1f * 2 ^ 3) (bit_and subunit_id 0x7)
    ∷ 0x02
    ∷ bit_and 0xff subfunction
    ∷ 0
    ∷ 0
    ∷ 0
    ∷ 0
    ∷ []

abbrev pub without_size : Result ℕ → Result (Unit {0})
without_size (ok n) = ok tt
without_size (err e) = err e

-- What the response code in the buffer means: IN TRANSITION is for STATUS only.
abbrev pub check_code : Bool → ℕ → Result ℕ → Result (Unit {0})
check_code is_status code r =
    if code == 0x08
    then err enosys
    else if code == 0x0a
    then err einval
    else if is_status && code == 0x0b
    then err eagain
    else without_size r

abbrev pub is_short : Result ℕ → Bool
is_short (ok n) = ltb n 8
is_short (err e) = false

-- The checks behind a transaction.
unfoldable pub check_response : Bool → Result ℕ × Transaction → Option (Result (Unit {0}))
check_response is_status r = get_elem? (r.1).response_buffer 0 >>= λ code.
    some (if is_short r.0 then err eio else check_code is_status code r.0)

-- The transaction for a frame, with the bytes that the response has to have in common with it.
abbrev pub transaction_of : Port → List ℕ → ℕ → ℕ → Transaction
transaction_of port frame ctype match_bytes =
    started port.unit port.device frame 8 match_bytes ctype port.garbage

-- `avc_general_set_sig_fmt` for a rate that was found.
unfoldable pub set_sfc : ℕ → Port → PlugDir → ℕ → Sfc → Option (Result (Unit {0}))
set_sfc fuel port dir pid sfc =
    let done =
      fcp_avc_transaction fuel port.world (transaction_of port (set_frame sfc dir pid) 0x00 62)
      >>= λ r. check_response false r in
    if port.alloc then done else some (err enomem)

-- `avc_general_set_sig_fmt`
unfoldable pub avc_general_set_sig_fmt : ℕ → Port → ℕ → PlugDir → ℕ → Option (Result (Unit {0}))
avc_general_set_sig_fmt fuel port rate dir pid = elim (sfc_from sfcs rate) [
  | none ↦ some (err einval)
  | some sfc ↦ set_sfc fuel port dir pid sfc
]

-- The rate for a frequency code; 7 is not one.
abbrev pub rate_of_code : List Sfc → ℕ → Option ℕ
rate_of_code [] code = none
rate_of_code (sfc ∷ rest) zero = some (rate_table sfc)
rate_of_code (sfc ∷ rest) (suc code) = rate_of_code rest code

abbrev pub rate_result : Option ℕ → Result ℕ
rate_result none = err eagain
rate_result (some rate) = ok rate

-- The rate in a response that was checked.
unfoldable pub pick_rate : Result (Unit {0}) → Transaction → Option (Result ℕ)
pick_rate (err e) t = some (err e)
pick_rate (ok u) t = get_elem? t.response_buffer 5 >>= λ fdf.
    some (rate_result (rate_of_code sfcs (bit_and 0x07 fdf)))

-- `avc_general_get_sig_fmt`, with the rate for a success.
unfoldable pub avc_general_get_sig_fmt : ℕ → Port → PlugDir → ℕ → Option (Result ℕ)
avc_general_get_sig_fmt fuel port dir pid =
    let done =
      fcp_avc_transaction fuel port.world (transaction_of port (get_frame dir pid) 0x01 30) >>= λ r.
      check_response true r >>= λ c. pick_rate c r.1 in
    if port.alloc then done else some (err enomem)

-- The four bytes of plug information in a response that was checked.
unfoldable pub pick_info : Result (Unit {0}) → Transaction → Option (Result (List ℕ))
pick_info (err e) t = some (err e)
pick_info (ok u) t = get_elem? t.response_buffer 4 >>= λ a. get_elem? t.response_buffer 5 >>= λ b.
    get_elem? t.response_buffer 6 >>= λ c.
    get_elem? t.response_buffer 7 >>= λ d. some (ok (a ∷ b ∷ c ∷ d ∷ []))

-- `avc_general_get_plug_info`, with the information for a success.
unfoldable pub avc_general_get_plug_info : ℕ → Port → ℕ → ℕ → ℕ → Option (Result (List ℕ))
avc_general_get_plug_info fuel port subunit_type subunit_id subfunction =
    let frame = plug_info_frame subunit_type subunit_id subfunction in
    let done = fcp_avc_transaction fuel port.world (transaction_of port frame 0x01 6) >>= λ r.
    check_response true r >>= λ c. pick_info c r.1 in
    if subunit_type == 0x1e || subunit_id == 5
    then some (err einval)
    else if port.alloc
    then done
    else some (err enomem)
