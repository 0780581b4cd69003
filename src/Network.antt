-- ===== src/Network.antt =====
-- packages/network
pub mod NumberPair
pub mod Detector
pub mod Topology
pub mod MessageBuffer
pub mod Counter
pub mod StreamManager
pub mod Throttler
pub mod RetryManager
pub mod LocationManager
pub mod Tracker
pub mod SeenSet
pub mod Node
