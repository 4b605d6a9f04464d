-- ===== src/Ai.antt =====
-- src/ai_orchestrator/ai_orchestrator_service.cpp and
-- include/rcs/ai_orchestrator/ai_orchestrator_service.hpp: the tasks that an AI client answers, the
-- flows of question, answer and explanation that they drive, and the rules that trigger them.
pub mod Types
pub mod Prompts
pub mod Tasks
pub mod Finish
pub mod Triggers
pub mod Invariant
pub mod Stages
pub mod Queue
pub mod Flows
pub mod Turns
pub mod Ends
pub mod Triggered
pub mod Steps
pub mod Loop
pub mod Answers
pub mod Stranded
pub mod Once
mod Quiet
mod Progress
pub mod Runs
mod Tests
