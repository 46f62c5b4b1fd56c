-- ===== src/Fireworks.antt =====
-- Drivers for Fireworks based devices: sound/firewire/fireworks/.
mod Tests
pub mod Ring
pub mod Transaction
pub mod Command
pub mod Hwdep
pub mod Stream
