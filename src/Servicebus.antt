-- ===== src/Servicebus.antt =====
-- The Service Bus adapter, src/mailflow/adapters/servicebus. The calls of Azure's client are parameters.
pub mod EventGrid
pub mod Runtime
pub mod Emitter
pub mod Poison
