-- ===== src/Gameplay.antt =====
-- src/gameplay/cultural_interaction_service.cpp and its header: an interaction is a question that a
-- player answers, made of the services for rooms, AI tasks, speech and storage.
pub mod Types
pub mod Storage
pub mod Records
pub mod Saving
pub mod Start
pub mod Voice
pub mod Answer
pub mod Speech
pub mod Outcome
mod Recorded
mod Laws
mod Once
mod Tests
