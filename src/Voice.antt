-- ===== src/Voice.antt =====
-- src/voice_tts/voice_tts_service.cpp and include/rcs/voice_tts/voice_tts_service.hpp: the queue of
-- speech tasks and the cache of the audio made.
pub mod Types
pub mod Cache
pub mod Tasks
pub mod Finish
pub mod Limit
pub mod Invariant
pub mod Selection
pub mod Turns
pub mod Steps
pub mod Cancel
mod Tests
