-- ===== src/Services/Memory.antt =====
-- Services that keep everything in memory: they show that the laws can be met, and run the tests.
-- Each holds a list of faults to come: the next call that writes fails if it begins with `true`.
pub mod Tables
pub mod Redis
pub mod Hashes
pub mod Keys
pub mod Faults
pub mod All
