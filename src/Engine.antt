-- ===== src/Engine.antt =====
-- services/assignment_engine.py: the flow of an incident through the engine.
pub mod Settings
pub mod Repetition
pub mod Group
pub mod Assign
pub mod Outcomes
pub mod Process
pub mod Simulation
pub mod Flow
pub mod Pilot
pub mod Cycles
pub mod Dispatch
pub mod Members
