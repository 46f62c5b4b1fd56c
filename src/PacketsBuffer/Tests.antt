-- ===== src/PacketsBuffer/Tests.antt =====
-- The layout of a buffer of 48 packets.
use snd_firewire_improve.Common.{
  ℕ, ◌+◌, ◌*◌, ◌/◌, ◌%◌, ◌≤◌, ◌<◌, ◌≡◌, refl, true, List, length, get_elem?, some, ok,
}
use snd_firewire_improve.PacketsBuffer.{Memory, Packet, slots, init, cache_align, div_round_up}
use snd_firewire_improve.PacketsBuffer.Layout.{init_lem}

abbrev some_memory : Memory
some_memory = record {
  page_size = 4096;
  cache_line = 64;
  kmalloc = λ _. true;
  iso_buffer_init = λ _. ok (λ _. 0);
}

abbrev some_packets : List Packet
some_packets = slots some_memory (λ _. 0) 128 48 0

granted : (init some_memory 48 104 0).0 ≡ ok some_packets
unfolding init
granted = refl

init_lem_example :
    (length some_packets ≡ 48)
    × ((i : ℕ) (p : Packet)
        → get_elem? some_packets i ≡ some p
        → (length p.quadlets ≡ cache_align some_memory 104 / 4)
          × (p.offset % 4096 + cache_align some_memory 104 ≤ 4096)
          × (p.offset + cache_align some_memory 104
              ≤ div_round_up 48 (4096 / cache_align some_memory 104) * 4096))
    × ((i j : ℕ) (p q : Packet)
        → i < j
        → get_elem? some_packets i ≡ some p
        → get_elem? some_packets j ≡ some q
        → p.offset + cache_align some_memory 104 ≤ q.offset)
init_lem_example = init_lem some_memory 48 104 0 some_packets granted
