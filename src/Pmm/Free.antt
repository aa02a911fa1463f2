-- ===== src/Pmm/Free.antt =====
-- `PMM::FreePages` against `give`.
pub mod Link
pub mod Insert
pub mod Steps
pub mod Pages
