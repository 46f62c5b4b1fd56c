-- ===== src/Digi00x.antt =====
-- The protocol of Digi 002/003 devices: sound/firewire/digi00x/digi00x-protocol.c.
pub mod Dot
pub mod Midi
pub mod Message
mod Tests
