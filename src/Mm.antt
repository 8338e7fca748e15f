-- ===== src/Mm.antt =====
-- mm
pub mod Pmm
pub mod Heap
pub mod Vmm
