-- ===== src/Receiver/Complete.antt =====
-- What becomes of the segments that come: none that could be handed over is left lying.
pub mod Buffer
pub mod Turns
pub mod Responds
pub mod Waits
pub mod Returns
pub mod Examples
