-- ===== src/Items.antt =====
-- Items: src/itemattributes.h and itemattributes.cpp, and the attributes of src/item.h and item.cpp.
pub mod Attributes
pub mod Keys
pub mod Reading
mod Tests
