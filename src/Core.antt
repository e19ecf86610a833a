-- ===== src/Core.antt =====
-- The runtime types of src/core: what an actor's queue holds and what a caller waits for.
pub mod Context
pub mod Channel
pub mod Outcome
pub mod Caster
pub mod Role
pub mod ReturnVal
pub mod Shown
