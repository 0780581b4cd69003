-- ===== src/Broker.antt =====
-- packages/broker
pub mod Batch
pub mod BatchManager
pub mod Bucket
