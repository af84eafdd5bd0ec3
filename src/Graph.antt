-- ===== src/Graph.antt =====
-- src/mailflow/adapters/graph: its client, its notifications and messages, the provider, the subscriptions, and the
-- runtime. What is outside is a state `X`, on which functions act that may raise; the subscriptions and the
-- runtime take the client's calls as such functions.
pub mod Subscriptions
pub mod Resources
pub mod Reconciler
pub mod Lifecycle
pub mod Messages
pub mod Notifications
pub mod Client
pub mod Provider
pub mod Runtime
