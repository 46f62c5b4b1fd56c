-- ===== src/Amdtp.antt =====
-- The AMDTP packet streaming engine, sound/firewire/amdtp.c and amdtp.h.
pub mod Types
pub mod Rate
pub mod Syt
pub mod Samples
pub mod Midi
pub mod Pointer
pub mod Queue
pub mod Cip
pub mod Packet
pub mod Callback
pub mod Config
pub mod Control
pub mod Tests
