-- ===== src/World.antt =====
-- The state that the scheduler's methods change: the partition trees, the connected solvers, the
-- settings and the messages that were sent. A method returns its result or exception with the new
-- state, since what was written before an exception stays written.
pub mod Effects
pub mod Objects
pub mod Running
pub mod Holds
