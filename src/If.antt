-- ===== src/If.antt =====
-- if_wg.c.
pub mod Queue
pub mod Timers
pub mod Data
pub mod Handshake
