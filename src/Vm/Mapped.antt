-- ===== src/Vm/Mapped.antt =====
-- `vm_map_pages` of kernel/src/mm/vm.c: what the addresses stand for that it maps.
use learning_os.Base.{
  ℕ, zero, suc, ◌+◌, ◌-◌, ◌*◌, ◌/◌, ◌%◌, ◌^◌, ◌≤◌, ◌<◌, bit_and, true, false, Option, none, some,
  ◌>>=◌, ltb, ◌==◌, if◌then◌else◌, u64, Mem, store, store_self, store_ne, ◌≡◌, ◌≢◌, ◌⊎◌, refl,
  arith, ◌∙◌, ap, Bool-cases, inl, inr, ◌>>>◌,
}
use learning_os.Base.Bits.{bit_and_mask, bit_and-zero}
use learning_os.Base.Bits.Parts.{bit_and-mod}
use learning_os.Vm.Entry.{
  has, kphys_addr, kphys_addr_for_entry, phys_addr_for_entry, mapped_entry, vm_check_status,
  pt_offset, pt_present, vm_write_guard, vm_allow_write, err_vm_privilege,
}
use learning_os.Vm.Fields.{has_bit, address_field, mapped_address, mapped_status}
use learning_os.Vm.Boundary.{boundary_iff}
use learning_os.Vm.Walk.{
  entry_at, check_vm_region_boundary, map_phys_page, traverse, traverse_with_status, find_from,
  find_pt_or_null, map_region, read_only, vm_map_pages,
}

-- The page that the tables give for an address, for a request.
unfoldable pub translate : Mem → ℕ → ℕ → Option ℕ
translate m pml4t virt_addr = do
  pt ← find_pt_or_null m pml4t virt_addr
  let entry = m (entry_at pt (pt_offset virt_addr))
  if has entry pt_present then some (phys_addr_for_entry entry) else none

-- The walk to the table of an address reads no entry of the table `pt`.
abbrev pub Outside : Mem → ℕ → ℕ → ℕ → ℕ → ℕ → Type 0
Outside m virt_addr pt zero shift table = Unit
Outside m virt_addr pt (suc rounds) shift table =
    let at = entry_at table (bit_and (virt_addr >>> shift) 0x1FF) in
    ((at + 8 ≤ pt) ⊎ (pt + 4096 ≤ at))
    × Outside m virt_addr pt rounds (shift - 9) (kphys_addr_for_entry (m at))

-- Two addresses take the same way through the tables.
abbrev pub SameWay : ℕ → ℕ → ℕ → ℕ → Type 0
SameWay v v' zero shift = Unit
SameWay v v' (suc rounds) shift = (v' >>> shift ≡ v >>> shift) × SameWay v v' rounds (shift - 9)

find_from-frame :
    (m m' : Mem) (v v' pt rounds shift table : ℕ)
    → ((a : ℕ) → (a + 8 ≤ pt) ⊎ (pt + 4096 ≤ a) → m' a ≡ m a)
    → SameWay v v' rounds shift
    → Outside m v pt rounds shift table
    → find_from m' v' rounds shift table ≡ find_from m v rounds shift table
unfolding find_from
find_from-frame m m' v v' pt zero shift table same way out = refl
find_from-frame m m' v v' pt (suc rounds) shift table same way out =
    let at = entry_at table (bit_and (v >>> shift) 0x1FF) in
    let rest =
      find_from-frame m m' v v' pt rounds (shift - 9) (kphys_addr_for_entry (m at)) same way.1
        out.1 in
    rw (way.0, same at out.0, rest) refl

status_present : (entry flags : ℕ) → vm_check_status entry flags ≡ 0 → has entry pt_present ≡ true
unfolding vm_check_status
status_present entry flags h = ground arith

-- A walk that meets no error finds the table.
traverse-find :
    (m : Mem) (v flags rounds shift table pt : ℕ)
    → traverse_with_status m v flags rounds shift table
      ≡ record { table = pt; depth = 0; error = 0 }
    → find_from m v rounds shift table ≡ some pt
unfolding traverse_with_status find_from
traverse-find m v flags zero shift table pt h = ground arith
traverse-find m v flags (suc rounds) shift table pt h =
    let entry = m (entry_at table (bit_and (v >>> shift) 0x1FF)) in
    ground (
      arith,
      status_present entry flags,
      traverse-find m v flags rounds (shift - 9) (kphys_addr_for_entry entry) pt,
    )

map_phys_page_self :
    (m : Mem) (pt offset phys flags : ℕ)
    → map_phys_page m pt offset phys flags (entry_at pt offset)
      ≡ mapped_entry (m (entry_at pt offset)) phys flags
unfolding map_phys_page
map_phys_page_self m pt offset phys flags = store_self m (entry_at pt offset) _

map_phys_page_ne :
    (m : Mem) (pt offset phys flags a : ℕ)
    → a ≢ entry_at pt offset
    → map_phys_page m pt offset phys flags a ≡ m a
unfolding map_phys_page
map_phys_page_ne m pt offset phys flags a h = store_ne m (entry_at pt offset) _ a h

-- The entries that the loop writes, and what it leaves alone.
map_region_lem :
    (m : Mem) (pt start phys flags pages i : ℕ)
    → map_region m pt start phys flags pages (entry_at pt (start + i)) ≡ (
        if ltb i pages
        then mapped_entry (m (entry_at pt (start + i))) (u64 (phys + i * 4096)) flags
        else m (entry_at pt (start + i)))
unfolding map_region map_phys_page store
map_region_lem m pt start phys flags zero i = ground arith
map_region_lem m pt start phys flags (suc pages) i =
    ground (arith, map_region_lem m pt start phys flags pages i)

map_region-frame :
    (m : Mem) (pt start phys flags pages a : ℕ)
    → (a + 8 ≤ entry_at pt start) ⊎ (entry_at pt (start + pages) ≤ a)
    → map_region m pt start phys flags pages a ≡ m a
unfolding map_region map_phys_page store
map_region-frame m pt start phys flags zero a h = refl
map_region-frame m pt start phys flags (suc pages) a h =
    ground (arith, map_region-frame m pt start phys flags pages a)

read_only-write : (flags : ℕ) → has (read_only flags) vm_allow_write ≡ false
read_only-write flags =
    let even = bit_and-mod 1 flags (2 ^ 64 - 2) in
    ground (arith, has_bit 0 (read_only flags), even, bit_and-zero (flags % 2))

pt_offset_lem : (v : ℕ) → pt_offset v ≡ v / 4096 % 512
pt_offset_lem v = bit_and_mask 9 (v / 2 ^ 12)

-- The bytes behind the base take its way through the tables, to the entries behind its own.
way_lem : (v d : ℕ) → v % 2 ^ 21 + d < 2 ^ 21 → SameWay v (v + d) 3 39
way_lem v d h = (omega arith, (omega arith, (omega arith, tt)))

-- The pages, with the guard if there is one.
abbrev pub with_guard : ℕ → ℕ → ℕ
with_guard flags pages = if has flags vm_write_guard then pages + 1 else pages

-- What `vm_map_pages` leaves where it maps: the entries that it was asked for, the guard, and
-- everything else as it was.
record Maps (m m' : Mem) (pt start phys flags pages : ℕ) : Type 0 where
  entries :
      (i : ℕ)
      → i < pages
      → m' (entry_at pt (start + i))
        ≡ mapped_entry (m (entry_at pt (start + i))) (u64 (phys + i * 4096)) flags
  guard :
      has flags vm_write_guard ≡ true
      → vm_check_status (m' (entry_at pt (start + pages))) vm_allow_write ≡ err_vm_privilege
  others :
      (a : ℕ)
      → (a + 8 ≤ entry_at pt start) ⊎ (entry_at pt (start + with_guard flags pages) ≤ a)
      → m' a ≡ m a

mapped_Maps :
    (m : Mem) (pt start phys flags pages : ℕ)
    → let mapped = map_region m pt start phys flags pages in
      Maps m
        (if has flags vm_write_guard
          then map_phys_page mapped pt (start + pages) (u64 (phys + pages * 4096)) (read_only flags)
          else mapped)
        pt
        start
        phys
        flags
        pages
mapped_Maps m pt start phys flags pages = elim (Bool-cases (has flags vm_write_guard)) [
  | inr bare ↦ rw bare (record {
    entries = λ i lt. map_region_lem m pt start phys flags pages i ∙ ground arith;
    guard = λ g. cc;
    others = λ a h. map_region-frame m pt start phys flags pages a (ground arith);
  })
  | inl guarded ↦
      let mapped = map_region m pt start phys flags pages in
      let last = u64 (phys + pages * 4096) in
      let only = read_only flags in
      rw guarded (record {
        entries = λ i lt.
            map_phys_page_ne mapped pt (start + pages) last only _ (λ e. absurd (omega (arith, e)))
            ∙ map_region_lem m pt start phys flags pages i
            ∙ ground arith;
        guard = λ g. rw (map_phys_page_self mapped pt (start + pages) last only) (
            ground (
              arith,
              mapped_status (mapped (entry_at pt (start + pages))) last only vm_allow_write,
              read_only-write flags,
            ));
        others = λ a h.
            map_phys_page_ne mapped pt (start + pages) last only a (λ e. absurd (ground (arith, e)))
            ∙ map_region-frame m pt start phys flags pages a (ground arith);
      })
]

-- The address of a page that is a multiple of 4096.
page_address :
    (phys i : ℕ)
    → phys % 4096 ≡ 0
    → phys + i * 4096 < 2 ^ 52
    → address_field (u64 (phys + i * 4096)) ≡ phys + i * 4096
page_address phys i h k = omega arith

translate_lem :
    (m m' : Mem) (pml4t phys virt flags pages pt : ℕ)
    → phys % 4096 ≡ 0
    → phys + pages * 4096 ≤ 2 ^ 52
    → virt % 2 ^ 21 + with_guard flags pages * 4096 < 2 ^ 21
    → find_from m virt 3 39 pml4t ≡ some pt
    → Outside m virt pt 3 39 pml4t
    → Maps m m' pt (pt_offset virt) phys flags pages
    → (i : ℕ) → i < pages
    → translate m' pml4t (virt + i * 4096) ≡ some (phys + i * 4096)
unfolding translate find_pt_or_null
translate_lem m m' pml4t phys virt flags pages pt aligned within inside found out maps i lt =
    let start = pt_offset virt in
    let fits : pages ≤ with_guard flags pages = ground arith in
    let old = m (entry_at pt (start + i)) in
    let page = u64 (phys + i * 4096) in
    let present = status_present (mapped_entry old page flags) 0 (mapped_status old page flags 0) in
    let shown = mapped_address old page flags in
    let here : pt_offset (virt + i * 4096) ≡ start + i =
      omega (arith, pt_offset_lem (virt + i * 4096), pt_offset_lem virt) in
    let way = way_lem virt (i * 4096) (ground arith) in
    let same =
      find_from-frame m m' virt (virt + i * 4096) pt 3 39 pml4t
        (λ a h. maps.others a (elim h [
          | inl below ↦ inl (omega arith)
          | inr above ↦ inr (omega (arith, pt_offset_lem virt))
        ]))
        way out in
    rw (same, found, here, maps.entries i lt, present, shown)
      (ap some (page_address phys i aligned (omega arith)))

-- `vm_map_pages` where the boundary test passes and the walk reaches the page table `pt` of the
-- base without an error, of which table the walk reads no entry itself. For fewer than 2^16 - 1
-- pages, a physical base that is a multiple of 4096 and pages that end by 2^52 it returns 0, and
-- then the tables give the i-th page of the physical region for the i-th page from the base on. A
-- write to the page behind them is refused if a guard was asked for. Outside the entries of the
-- pages and of the guard memory is as before.
pub map_pages_lem :
    (m : Mem) (cr3 phys virt flags pages pt : ℕ)
    → virt < 2 ^ 64
    → pages < 2 ^ 16 - 1
    → phys % 4096 ≡ 0
    → phys + pages * 4096 ≤ 2 ^ 52
    → check_vm_region_boundary virt pages flags ≡ 0
    → traverse m (kphys_addr cr3) virt flags ≡ record { table = pt; depth = 0; error = 0 }
    → Outside m virt pt 3 39 (kphys_addr cr3)
    → let r = vm_map_pages m cr3 phys pages virt flags in
      let start = pt_offset virt in
      (r.0 ≡ 0)
      × ((i : ℕ)
          → i < pages
          → translate r.1 (kphys_addr cr3) (virt + i * 4096) ≡ some (phys + i * 4096))
      × (has flags vm_write_guard ≡ true
          → vm_check_status (r.1 (entry_at pt (start + pages))) vm_allow_write ≡ err_vm_privilege)
      × ((a : ℕ)
          → (a + 8 ≤ entry_at pt start) ⊎ (entry_at pt (start + with_guard flags pages) ≤ a)
          → r.1 a ≡ m a)
unfolding vm_map_pages traverse
map_pages_lem m cr3 phys virt flags pages pt bounded few aligned within check walk out =
    let start = pt_offset virt in
    let maps = mapped_Maps m pt start phys flags pages in
    let test : (0 == check_vm_region_boundary virt pages flags) ≡ true = ground (arith, check) in
    let found = traverse-find m virt flags 3 39 (kphys_addr cr3) pt walk in
    let inside = (boundary_iff virt pages flags bounded few).0 check in
    rw (test, walk)
      (
        refl,
        translate_lem m _ (kphys_addr cr3) phys virt flags pages pt aligned within inside found out
            maps,
        maps.guard,
        maps.others,
      )

-- `vm_map_pages` does not look at the error of the walk: where the boundary test passes and the
-- walk stops in front of the page table, at a table `parent` of a higher level, it still returns 0,
-- and for each page it has put an entry for the page into `parent`.
pub map_pages_unmapped :
    (m : Mem) (cr3 phys virt flags pages parent depth error : ℕ)
    → check_vm_region_boundary virt pages flags ≡ 0
    → traverse m (kphys_addr cr3) virt flags
      ≡ record { table = parent; depth = suc depth; error = error }
    → let r = vm_map_pages m cr3 phys pages virt flags in
      (r.0 ≡ 0)
      × ((i : ℕ)
          → i < pages
          → phys_addr_for_entry (r.1 (entry_at parent (pt_offset virt + i)))
            ≡ address_field (u64 (phys + i * 4096)))
unfolding vm_map_pages traverse
map_pages_unmapped m cr3 phys virt flags pages parent depth error check walk =
    let start = pt_offset virt in
    let maps = mapped_Maps m parent start phys flags pages in
    let test : (0 == check_vm_region_boundary virt pages flags) ≡ true = ground (arith, check) in
    rw (test, walk)
      (
        refl,
        λ i lt.
            ap phys_addr_for_entry (maps.entries i lt)
            ∙ mapped_address (m (entry_at parent (start + i))) (u64 (phys + i * 4096)) flags,
      )
