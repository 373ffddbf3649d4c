-- ===== src/Buddy.antt =====
-- kernel/src/mm/buddy_alloc.c and kernel/include/mm/buddy_alloc.h: the buddy allocator.
pub mod Index
pub mod State
pub mod Pages
pub mod Alloc
pub mod Aligned
pub mod Valid
pub mod Free
pub mod Shrink
pub mod Init
