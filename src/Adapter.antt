-- ===== src/Adapter.antt =====
-- internal/adapter/canadapter: CAN frames to packets and back.
pub mod Sequence
pub mod Window
pub mod MultiBuilder
pub mod CanAdapter
