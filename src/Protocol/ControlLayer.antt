-- ===== src/Protocol/ControlLayer.antt =====
-- The messages of packages/protocol/src/protocol/control_layer between clients and brokers that carry
-- no stream message: their constructors and serializers. Fields are as they are at run time, and
-- `none` is an error that the code throws.
pub mod Head
pub mod Subscriptions
pub mod ResendResponses
pub mod ResendRequests
pub mod Messages
pub mod RoundTrip
mod Tests
