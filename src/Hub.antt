-- ===== src/Hub.antt =====
-- internal/platform/ws/hub.go: the clients of a node, the rooms that they joined, and what the hub
-- sends them. The maps are association lists; the hub's effects on connections, on the store of
-- subscriptions and on the metrics are a list in their order. A client's send channel is the list
-- of what it holds. Each operation is one critical section; a broadcast is two, the sends under the
-- read lock and the eviction of slow clients under the write lock.
pub mod State
pub mod Operations
pub mod Messages
pub mod Invariant
pub mod Membership
pub mod Sending
pub mod Slow
pub mod Closing
pub mod Delivery
pub mod Runs
mod Examples
