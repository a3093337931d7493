-- ===== src/Integration.antt =====
-- The execution of an operation and of its integrations
-- (pdip/integrator/operation, pdip/integrator/integration).
pub mod Domain
pub mod Transaction
pub mod Single
pub mod Copy
pub mod Messages
pub mod Adapters
pub mod Execution
mod Quiet
pub mod Lifecycle
pub mod Integrator
pub mod Events
pub mod Outcome
pub mod Order
