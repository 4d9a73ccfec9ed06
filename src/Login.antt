-- ===== src/Login.antt =====
-- How players get into the game: the waiting list of src/waitlist.cpp.
pub mod WaitList
