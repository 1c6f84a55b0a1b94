-- ===== src/Tests.antt =====
-- A sample tree, and the theorems at concrete inputs.
mod Sample
mod Trees
mod Formulas
mod Messages
mod Worlds
mod Servers
mod Starts
mod Loops
mod Charts
mod Dummies
mod Files
mod Rules
mod Typed
mod Evaluations
mod Startups
