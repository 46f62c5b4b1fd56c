-- ===== src/Amdtp/Cip.antt =====
-- The two quadlets of the CIP header, as an out-packet carries them and an in-packet is read.
pub mod Fields
use snd_firewire_improve.Common.{
  ℕ, ◌-◌, ◌*◌, ◌/◌, ◌+◌, ◌^◌, Bool, true, false, not, ◌&&◌, ◌||◌, ◌==◌, ltb, if◌then◌else◌, bit_and,
  bit_or, Result, ok, err, Errno, einval,
}
use snd_firewire_improve.Amdtp.Types.{u32, uint_max, sfc_code, Stream}

abbrev pub cip_eoh : ℕ
cip_eoh = 0x80000000

abbrev pub cip_fmt_am : ℕ
cip_fmt_am = 0x10 * 2 ^ 24

-- `buffer[0]` and `buffer[1]` of `handle_out_packet`; AMDTP_FDF_AM824 is 0.
unfoldable pub header0 : Stream → ℕ
header0 s =
    bit_or (bit_or s.source_node_id_field (u32 (s.data_block_quadlets * 2 ^ 16)))
      s.data_block_counter

unfoldable pub header1 : Stream → ℕ → ℕ
header1 s syt = bit_or (bit_or (bit_or cip_eoh cip_fmt_am) (sfc_code s.sfc * 2 ^ 16)) syt

-- The first test of `handle_in_packet`.
unfoldable pub invalid_header : ℕ → ℕ → Bool
invalid_header cip0 cip1 =
    bit_and cip0 0x80000000 == cip_eoh
    || not (bit_and cip1 0x80000000 == cip_eoh)
    || not (bit_and cip1 0x3f000000 == cip_fmt_am)

-- The data blocks of an in-packet; `err` stands for the exit over a zero in the dbs field.
unfoldable pub count_data_blocks : Stream → ℕ → ℕ → ℕ → Result ℕ
count_data_blocks s payload_quadlets cip0 cip1 =
    let dbs = bit_and cip0 0x00ff0000 / 2 ^ 16 in
    if ltb payload_quadlets 3 || bit_and cip1 0x00ff0000 == 0xff * 2 ^ 16
    then ok 0
    else if dbs == 0
    then err einval
    else ok ((payload_quadlets - 2) / (if s.flags.wrong_dbs then s.data_block_quadlets else dbs))

-- The data block counter that is taken for the packet's.
unfoldable pub packet_dbc : Stream → ℕ → ℕ → ℕ
packet_dbc s cip0 data_blocks =
    if data_blocks == 0 && s.flags.empty_has_wrong_dbc && not (s.data_block_counter == uint_max)
    then s.data_block_counter
    else bit_and cip0 0x000000ff

-- Whether the counter shows that packets were lost.
unfoldable pub is_lost : Stream → ℕ → ℕ → Bool
is_lost s dbc data_blocks =
    let dbc_interval =
      if ltb 0 data_blocks && ltb 0 s.tx_dbc_interval then s.tx_dbc_interval else data_blocks in
    if s.flags.skip_dbc_zero_check && dbc == 0 || s.data_block_counter == uint_max
    then false
    else if not s.flags.dbc_is_end_event
    then not (dbc == s.data_block_counter)
    else not (dbc == bit_and (u32 (s.data_block_counter + dbc_interval)) 0xff)

-- The counter that the next packet is held to.
unfoldable pub next_dbc : Stream → ℕ → ℕ → ℕ
next_dbc s dbc data_blocks =
    if s.flags.dbc_is_end_event then dbc else bit_and (u32 (dbc + data_blocks)) 0xff
