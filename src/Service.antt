-- ===== src/Service.antt =====
-- internal/n2kinternal: the service between an endpoint and the subscribers.
pub mod Queue
pub mod Metrics
pub mod Handling
pub mod Lifecycle
