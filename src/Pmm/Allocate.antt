-- ===== src/Pmm/Allocate.antt =====
-- `PMM::AllocatePages` against `take_fit`.
pub mod Carve
pub mod Pages
