-- ===== src/Amdtp/Cip/Fields.antt =====
-- The fields of the CIP header come back as they were put in.
use snd_firewire_improve.Common.{ℕ, ◌+◌, ◌*◌, ◌/◌, ◌%◌, ◌^◌, ◌<◌, ◌≡◌, false, bit_and, ok, arith}
use snd_firewire_improve.Common.Bits.{or_field, and_field, and_low}
use snd_firewire_improve.Amdtp.Types.{u32, sfc_code, Sfc, Stream}
use snd_firewire_improve.Amdtp.Cip.{header0, header1, invalid_header, count_data_blocks}

-- What the fields of an out-packet's header fit in.
pub record IsFramed (s : Stream) : Type 0 where
  pub node : s.source_node_id_field ≡ s.source_node_id_field / 2 ^ 24 * 2 ^ 24
  pub node_bound : s.source_node_id_field / 2 ^ 24 < 64
  pub quadlets : s.data_block_quadlets < 256
  pub positive : 0 < s.data_block_quadlets
  pub counter : s.data_block_counter < 256

sfc_bound : (sfc : Sfc) → sfc_code sfc < 8
sfc_bound Sfc.sfc_44100 = omega arith
sfc_bound _ = omega arith

header0_lem :
    (s : Stream)
    → IsFramed s
    → header0 s ≡ s.source_node_id_field + s.data_block_quadlets * 2 ^ 16 + s.data_block_counter
unfolding header0
header0_lem s f =
    let n = s.source_node_id_field / 2 ^ 24 in
    let q = s.data_block_quadlets in
    let w : u32 (q * 2 ^ 16) ≡ q * 2 ^ 16 = omega arith in
    let e : n * 2 ^ 24 + q * 2 ^ 16 ≡ (n * 2 ^ 8 + q) * 2 ^ 16 = omega arith in
    rw w (
      rw f.node (
        ground
          (arith, or_field 24 n (q * 2 ^ 16), or_field 16 (n * 2 ^ 8 + q) s.data_block_counter, e)))

header1_lem :
    (s : Stream) (syt : ℕ)
    → syt < 2 ^ 16
    → header1 s syt ≡ 0x90 * 2 ^ 24 + sfc_code s.sfc * 2 ^ 16 + syt
unfolding header1
header1_lem s syt h =
    let c = sfc_code s.sfc in
    let b : c < 8 = sfc_bound s.sfc in
    let e : 0x90 * 2 ^ 24 + c * 2 ^ 16 ≡ (0x9000 + c) * 2 ^ 16 = omega arith in
    ground (arith, or_field 24 0x90 (c * 2 ^ 16), or_field 16 (0x9000 + c) syt, e)

-- Each mask of the CIP header picks a field of the word.
pub mask_eoh : (w : ℕ) → bit_and w 0x80000000 ≡ w / 2 ^ 31 % 2 * 2 ^ 31
mask_eoh w = omega (arith, and_field 31 w 1, and_low 1 (w / 2 ^ 31))

pub mask_fmt : (w : ℕ) → bit_and w 0x3f000000 ≡ w / 2 ^ 24 % 64 * 2 ^ 24
mask_fmt w = omega (arith, and_field 24 w 63, and_low 6 (w / 2 ^ 24))

pub mask_byte2 : (w : ℕ) → bit_and w 0x00ff0000 ≡ w / 2 ^ 16 % 256 * 2 ^ 16
mask_byte2 w = omega (arith, and_field 16 w 255, and_low 8 (w / 2 ^ 16))

pub mask_dbc : (w : ℕ) → bit_and w 0xff ≡ w % 256
mask_dbc w = and_low 8 w

pub mask_syt : (w : ℕ) → bit_and w 0xffff ≡ w % 2 ^ 16
mask_syt w = and_low 16 w

-- A header that an out-stream writes is valid.
pub header_valid :
    (o : Stream) (syt : ℕ)
    → IsFramed o
    → syt < 2 ^ 16
    → invalid_header (header0 o) (header1 o syt) ≡ false
unfolding invalid_header
header_valid o syt f h = ground (
  arith,
  header0_lem o f,
  header1_lem o syt h,
  sfc_bound o.sfc,
  mask_eoh (header0 o),
  mask_eoh (header1 o syt),
  mask_fmt (header1 o syt),
)

-- The time stamp comes back.
pub header_syt : (o : Stream) (syt : ℕ) → syt < 2 ^ 16 → bit_and (header1 o syt) 0xffff ≡ syt
header_syt o syt h = omega (arith, header1_lem o syt h, mask_syt (header1 o syt), sfc_bound o.sfc)

-- The data block counter comes back.
pub header_dbc : (o : Stream) → IsFramed o → bit_and (header0 o) 0xff ≡ o.data_block_counter
header_dbc o f = omega (arith, header0_lem o f, f.node, f.counter, mask_dbc (header0 o))

cancel : (n q : ℕ) → 0 < q → n * q / q ≡ n
cancel n q h = grind arith

-- The number of data blocks comes back, at the packet's own length.
pub header_data_blocks :
    (i o : Stream) (syt n : ℕ)
    → IsFramed o
    → syt < 2 ^ 16
    → i.flags.wrong_dbs ≡ false
    → count_data_blocks i (2 + n * o.data_block_quadlets) (header0 o) (header1 o syt) ≡ ok n
unfolding count_data_blocks
header_data_blocks i o syt n f h w = ground (
  arith,
  header0_lem o f,
  header1_lem o syt h,
  sfc_bound o.sfc,
  mask_byte2 (header0 o),
  mask_byte2 (header1 o syt),
  cancel n o.data_block_quadlets,
)
