-- ===== src/Checks.antt =====
-- Tests by evaluation, and the theorems at concrete inputs.
mod Data
mod Reading
mod Writing
mod Delivery
mod Network
mod Mrl
mod Start
mod Printing
mod Locks
mod Loops
mod Playback
mod Legacy
