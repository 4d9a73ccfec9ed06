-- ===== src/Network.antt =====
-- src/networkmessage.h, networkmessage.cpp, outputmessage.h and protocol.cpp: the messages and their encryption.
pub mod Buffer
pub mod Message
pub mod Protocol
pub mod Pool
pub mod Xtea
mod Tests
