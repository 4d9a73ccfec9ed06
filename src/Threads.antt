-- ===== src/Threads.antt =====
-- The two threads that run the server's events: src/scheduler.cpp and dispatcher.cpp.
pub mod Scheduler
pub mod Dispatcher
