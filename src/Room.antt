-- ===== src/Room.antt =====
-- src/room/room_match_service.cpp and include/rcs/room/room_match_service.hpp: rooms, their
-- members, and the match queue.
pub mod Types
pub mod Rooms
pub mod Matching
pub mod Queries
pub mod Seats
pub mod Invariant
pub mod Membership
pub mod Tickets
pub mod Queue
pub mod Groups
pub mod Opening
pub mod Filled
pub mod Tick
pub mod Loop
pub mod Seating
pub mod QueueRooms
pub mod Steps
pub mod Lookups
pub mod Reopening
mod Tests
