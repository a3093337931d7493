-- ===== src/Pubsub.antt =====
-- The message broker of the integrator (pdip/integrator/pubsub).
pub mod Message
pub mod Broker
pub mod Channel
pub mod Threads
pub mod Subscriptions
pub mod Delivery
pub mod Failing
