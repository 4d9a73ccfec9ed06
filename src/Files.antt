-- ===== src/Files.antt =====
-- The node files of the server: src/fileloader.h and fileloader.cpp.
pub mod Escape
pub mod Nodes
pub mod Stream
