-- ===== src/Tests.antt =====
-- Runs of the model on small inputs, and the theorems at concrete data.
mod Fixtures
mod Running
mod Trees
mod Generations
mod Interfaces
mod Links
mod Services
mod System
mod Runs
mod Names
mod Commands
mod Network
mod Updown
