-- ===== src/Protocol.antt =====
-- packages/protocol
pub mod MessageRef
pub mod OrderedChain
pub mod Ordering
pub mod Validations
pub mod Json
pub mod StreamMessage
pub mod TrackerLayer
pub mod ControlLayer
