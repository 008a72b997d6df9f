-- ===== src/Lists.antt =====
-- src/lists.c: the subrs on lists, over the cons cells of the store.
pub mod Access
pub mod Search
pub mod Index
pub mod Copy
pub mod Reverse
pub mod Mapping
pub mod Delete
