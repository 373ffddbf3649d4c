-- ===== src/Vm.antt =====
-- kernel/src/mm/vm.c, kernel/src/mm/vmzone.c, kernel/src/mm.c and kernel/include/mm.h: the page
-- tables of the processor, and the zones of virtual memory.
pub mod Entry
pub mod Fields
pub mod Boundary
pub mod Walk
pub mod Mapped
pub mod Zone
