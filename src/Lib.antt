-- ===== src/Lib.antt =====
-- LearningOS, a small x86-64 kernel: physical and virtual memory, the kernel heap and
-- the interrupts of kernel/.
--
-- The program. At boot kernel/src/mm/boot_mmap.c turns the memory map of the boot loader into a
-- list of usable regions, from whose heads pages are reserved. kernel/src/mm/phys_alloc.c gives
-- out runs of 1 to 128 pages: it takes a block of a power of two of pages from the buddy allocator
-- of kernel/src/mm/buddy_alloc.c and gives the tail back. The buddy allocator keeps a list of free
-- blocks for each order from 0 to 7 and a bit for each pair of buddies in a bitmap of
-- kernel/src/mm/bitmap.c, which is on if one of the two is in use. The headers in
-- kernel/include/utility/math.h and kernel/src/utility/strings.c serve all of them.
-- The entries of the free lists, and the objects of the kernel heap of kernel/src/mm/kmalloc.c,
-- come from the caches of kernel/src/mm/slab.c. Apart from memory, kernel/src/cpu/isr.c sends an
-- interrupt to its registered handler and acknowledges it at kernel/src/driver/pic.c.
--
-- kernel/src/mm/page.c keeps an info for each physical page, with a count of its references, and
-- kernel/src/mm/page_alloc.c a list of free pages that processors change without a lock, by the
-- compare-and-exchange of kernel/include/cpu/atomic.h. kernel/src/mm/vm.c maps physical pages into
-- the page tables of the processor, and gives out blocks in the zones of kernel/src/mm/vmzone.c.
--
-- The files.
--   Base       what the others share: Boolean tests, lists, machine words (numbers with
--              `% 2 ^ w` written out), byte memory (a function from addresses), powers and bits
--   Math       kernel/include/utility/math.h
--   Strings    kernel/src/utility/strings.c over byte memory, in Strings the strings and copies, in
--              Number the conversions; Fill, Copy and Length prove what they do
--   Bitmap     kernel/src/mm/bitmap.c, over byte memory
--   Slab       kernel/src/mm/slab.c: Cells has the free objects of a slab, Init their set-up, Links
--              and Unlink the doubly linked lists of slabs, Frame what these leave alone, Alloc
--              and Free the two operations on objects
--   Kmalloc    kernel/src/mm/kmalloc.c, over Slab
--   Atomic     kernel/include/cpu/atomic.h: Order and Alone are about its loops under a schedule
--   Page       kernel/src/mm/page.c: Flags has the marks, References the counts
--   PageAlloc  kernel/src/mm/page_alloc.c: General has the first list, Chain, Invariant, Moves and
--              Safety the turns of the processors
--   Vm         kernel/src/mm/vm.c, kernel/src/mm/vmzone.c and kernel/src/mm.c: Entry and Fields have
--              the entries, Boundary, Walk and Mapped the tables, Zone the zones, with the block
--              lists in Zone/Reuse
--   BootMmap   kernel/src/mm/boot_mmap.c: a region is a record, the chain of regions a list
--   Buddy      kernel/src/mm/buddy_alloc.c. Index has the arithmetic of page offsets and bitmap
--              places, State the record, Init, Alloc, Free and Shrink the operations. Pages is the
--              abstract view: how often each page is free. Aligned and Valid have the invariant, and
--              Free/Returns that a block can be given back
--   PhysAlloc  kernel/src/mm/phys_alloc.c: Alloc has the taking of a run, Rounds and Shrink the
--              giving back, Returns, Ends, Keeps and Cuts that it ends
--   Pic        kernel/src/driver/pic.c: a call is the list of its port writes
--   Vga        kernel/src/driver/vga.c: the text area and the registers of the cursor; Scroll has the
--              movements of the area, Typing and Texts the printing
--   Isr        kernel/src/cpu/isr.c and kernel/src/cpu/idt.c: Gates has the descriptor table,
--              Dispatch the registration and the handling of an interrupt, as a list of events
--   Tests      concrete states and runs
--
-- State. An operation takes the record of its component and returns it; a result `none` is an
-- access that C leaves undefined (past the end of `freelists`, through a NULL entry), a loop whose
-- 8-bit counter never ends, or a call that is not followed: where the cache of the entries is
-- empty, `slab_alloc` maps a slab, which enters the buddy allocator again in the middle of its
-- operation. The theorems on the buddy allocator say how many entries are enough. The chain of
-- entries of a free list is the list of their page offsets, and of the slab cache that the entries
-- come from the allocator keeps the number of free objects. A shift of an `int` by its width or
-- more takes the low five bits of the count, as the machine does.
--
-- Processors. Where several run at once, a schedule is the list of those that take a turn, and a
-- turn is one access to shared memory; the theorems hold for every schedule. Page tables are 64-bit
-- words at the addresses at which the kernel sees them, and a pointer to a page info is its index.
--
-- Loops. A walk to the end of a string runs on fuel that the caller gives, and its theorem says how
-- much is enough; the digits of a number take 64 rounds. The search over the orders, the
-- coalescing loop and the shrinking loop run on fuel of 8 or 9 rounds, since each round changes
-- the order by one and there are 8 of them; that this is enough is part of the theorems that say
-- that the operations return.
--
-- What is a parameter: the memory map and the linker's symbols, and the mapping of a page into
-- the kernel's address space (`vm_alloc_block`) for entries and for slabs;
-- what the ports of the interrupt controllers give, and the addresses of the interrupt stubs.
-- For the zones the physical allocators are an interface that gets at neither zones nor tables: the
-- slab that `__freespace_check` maps in a zone when fewer than 8 entries are left is not followed
-- there, and counts as a fault.
--
-- Not modelled: the log of kernel/src/log.c, the boot information tags, the order of initialisation
-- in kernel/src/kernel.c and kernel/src/mm.c; the vendored Multiboot header; assembly code.
pub mod Atomic
pub mod Base
pub mod Bitmap
pub mod BootMmap
pub mod Buddy
pub mod Isr
pub mod Kmalloc
pub mod Math
pub mod Page
pub mod PageAlloc
pub mod PhysAlloc
pub mod Pic
pub mod Slab
pub mod Strings
pub mod Tests
pub mod Vga
pub mod Vm
