-- ===== src/Bus/Resources/Bandwidth.antt =====
-- The bandwidth that is asked for is enough for the packets.
use snd_firewire_improve.Common.{ℕ, zero, suc, ◌+◌, ◌-◌, ◌*◌, ◌^◌, ◌≤◌, ◌<◌, arith}
use snd_firewire_improve.Bus.Resources.{packet_bandwidth, current_bandwidth_overhead}

-- For a payload whose bandwidth fits `unsigned int` at S100, the bandwidth covers the three
-- header quadlets and the payload at the stream's speed, S100 to S400, exceeding them by less
-- than a quadlet.
pub packet_bandwidth_lem :
    (payload speed : ℕ)
    → payload < 2 ^ 29
    → speed ≤ 2
    → ((12 + payload) * 2 ^ (2 - speed) ≤ packet_bandwidth payload speed)
      × (packet_bandwidth payload speed < (16 + payload) * 2 ^ (2 - speed))
unfolding packet_bandwidth
packet_bandwidth_lem payload zero h l = ground arith
packet_bandwidth_lem payload (suc zero) h l = ground arith
packet_bandwidth_lem payload (suc (suc zero)) h l = ground arith
packet_bandwidth_lem payload (suc (suc (suc speed))) h l = absurd (omega arith)

-- At any gap count the overhead is at least the 88.3 units of a bus without cables, and at most
-- what the largest gap count below 63 gives.
pub current_bandwidth_overhead_lem :
    (gap_count : ℕ)
    → (89 ≤ current_bandwidth_overhead gap_count) × (current_bandwidth_overhead gap_count ≤ 690)
unfolding current_bandwidth_overhead
current_bandwidth_overhead_lem gap_count = ground arith
