-- ===== src/Subsessions/Registry.antt =====
-- src/robotsix_chat/subsessions/registry.py and its collaborators: one record owns every dictionary
-- that they share, and each method is a function on it.
pub mod State
pub mod Retention
pub mod Create
pub mod Messages
pub mod Closing
pub mod Index
pub mod Tree
pub mod Lifecycle
pub mod Ownership
pub mod Tickets
pub mod Routing
