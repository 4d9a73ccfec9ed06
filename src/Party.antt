-- ===== src/Party.antt =====
-- Parties: src/party.h and party.cpp, and the parts of src/player.cpp that their operations call.
pub mod State
pub mod Experience
pub mod Operations
pub mod Members
pub mod Leaving
mod Tests
