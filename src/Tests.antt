-- ===== src/Tests.antt =====
-- Concrete states and runs of the modelled code of kernel/.
pub mod States
mod Buddy
mod Merges
mod Console
mod PhysAlloc
mod Bitmap
mod Math
mod BootMmap
mod Slab
mod Init
mod Strings
mod Isr
mod Pages
mod Vm
