-- ===== src/Mem.antt =====
-- The memory managers: kernel/mem.
pub mod Bitmap
pub mod Pmm
pub mod Paging
pub mod Boot
pub mod Heap
pub mod Pages
pub mod User
