-- ===== src/Events.antt =====
-- internal/events: publishing to subscribers.
pub mod PubSub
