-- ===== src/PacketsBuffer.antt =====
-- sound/firewire/packets-buffer.c: the DMA pages of a stream cut into equal packet slots.
pub mod Layout
mod Tests
use snd_firewire_improve.Common.{
  ℕ, zero, suc, ◌+◌, ◌-◌, ◌*◌, ◌/◌, ◌%◌, Bool, true, false, List, [], ◌∷◌, if◌then◌else◌, ◌==◌,
  Result, ok, err, Errno, enomem, einval,
}

-- What the allocation functions of the kernel answer. `page_size` and `cache_line` are PAGE_SIZE
-- and L1_CACHE_BYTES, `kmalloc n` tells whether n bytes are granted, and `iso_buffer_init` is
-- fw_iso_buffer_init for a number of pages: an error, or the quadlets that the pages hold.
pub record Memory : Type 0 where
  pub page_size : ℕ
  pub cache_line : ℕ
  pub kmalloc : ℕ → Bool
  pub iso_buffer_init : ℕ → Result (ℕ → ℕ)

-- One entry of `b->packets`: the quadlets from `buffer` up to the next slot, in the byte order of
-- the CPU, and the offset of the slot in the buffer.
pub record Packet : Type 0 where
  pub quadlets : List ℕ
  pub offset : ℕ

-- DIV_ROUND_UP and L1_CACHE_ALIGN (a cache line is a power of two bytes).
abbrev pub div_round_up : ℕ → ℕ → ℕ
div_round_up n d = (n + d - 1) / d

abbrev pub cache_align : Memory → ℕ → ℕ
cache_align m n = (n + m.cache_line - 1) / m.cache_line * m.cache_line

-- The n quadlets that follow offset i.
unfoldable pub slot_quadlets : (ℕ → ℕ) → ℕ → ℕ → List ℕ
slot_quadlets memory zero i = []
slot_quadlets memory (suc n) i = memory i ∷ slot_quadlets memory n (i + 1)

-- `page_index * PAGE_SIZE + offset_in_page` of packet i.
unfoldable pub slot_offset : ℕ → ℕ → ℕ → ℕ
slot_offset page_size packet_size i =
    let packets_per_page = page_size / packet_size in
    i / packets_per_page * page_size + i % packets_per_page * packet_size

-- The loop over the packets; `n` rounds are left.
unfoldable pub slots : Memory → (ℕ → ℕ) → ℕ → ℕ → ℕ → List Packet
unfolding slot_quadlets slot_offset
slots m memory packet_size zero i = []
slots m memory packet_size (suc n) i =
    let offset = slot_offset m.page_size packet_size i in
    record { quadlets = slot_quadlets memory (packet_size / 4) (offset / 4); offset = offset }
    ∷ slots m memory packet_size n (i + 1)

-- `iso_packets_buffer_init`, with the number of blocks of the heap in use before and after it. An
-- entry of `packets` takes 16 bytes. The exit for a packet larger than a page frees nothing.
unfoldable pub init : Memory → ℕ → ℕ → ℕ → Result (List Packet) × ℕ
unfolding slots
init m count packet_size heap =
    let size = cache_align m packet_size in
    let packets_per_page = m.page_size / size in
    if m.kmalloc (count * 16)
    then (if packets_per_page == 0
        then (err einval, heap + 1)
        else elim (m.iso_buffer_init (div_round_up count packets_per_page)) [
          | ok memory ↦ (ok (slots m memory size count 0), heap + 1)
          | err e ↦ (err e, heap + 1 - 1)
        ])
    else (err enomem, heap)

-- `iso_packets_buffer_destroy`: the pages and the table are given back.
unfoldable pub destroy : ℕ → ℕ
destroy heap = heap - 1
