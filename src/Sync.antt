-- ===== src/Sync.antt =====
-- src/sync/state_sync_service.cpp and include/rcs/sync/state_sync_service.hpp: the authoritative
-- state of the players in each room.
pub mod Types
pub mod Service
pub mod Authority
pub mod Snapshots
mod Trimmed
pub mod Submit
pub mod Pending
pub mod Steps
mod Tests
