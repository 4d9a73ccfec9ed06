-- ===== src/Container.antt =====
-- Containers: src/container.h and container.cpp.
pub mod Heap
pub mod Change
pub mod Query
pub mod Iterator
pub mod Held
pub mod Weights
pub mod Moving
pub mod Depot
mod Tests
