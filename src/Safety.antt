-- ===== src/Safety.antt =====
-- The invariant of the machine and of its heap, and what an action may do to them.
pub mod Growth
pub mod Writes
pub mod Rules
pub mod Data
pub mod Actions
pub mod Frames
pub mod Calls
pub mod Steps
pub mod Instr
pub mod Runs
pub mod Shape
pub mod Sound
pub mod Expanding
pub mod Gives
pub mod Emitting
pub mod Compiling
pub mod Programs
pub mod Persistence
pub mod Primitives
