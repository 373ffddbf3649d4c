-- ===== src/Vm/Zone/Reuse.antt =====
-- The list of free blocks of a zone, of kernel/src/mm/vm.c: a block that is freed is the next one
-- to be given out.
use learning_os.Base.{
  ℕ, zero, suc, ◌+◌, ◌-◌, ◌*◌, ◌/◌, ◌%◌, ◌^◌, ◌≤◌, ◌<◌, bit_and, bit_or, false, Option, some, List,
  [], ◌∷◌, ltb, leb, if◌then◌else◌, store, store_self, get_elem?, set, get_elem?-set_self,
  lt_of_get_elem?, u8, not64, ◌≡◌, refl, arith, ◌∙◌, ap, sym, Bool-cases, inl, inr, ◌<<<◌,
}
use native.Mathlib.Nat.{mul_assoc, div-mul-le_self, pow-le-pow_right}
use learning_os.Base.Bits.{bit_or-one}
use learning_os.Base.Powers.{pow-add}
use learning_os.Vm.Entry.{
  kphys_addr, next_free_entry, pt_present, pt_offset_negative, entry_addr_mask, pt_offset,
}
use learning_os.Vm.Fields.{
  field, field-bit_or, field-kept, field-masked, field-both, field-other, has_bit, address_mask_lem,
}
use learning_os.Math.{aligndown}
use learning_os.Math.Round.{aligndown_lem}
use learning_os.Vm.Walk.{entry_at, traverse, find_pt_or_null}
use learning_os.Vm.Zone.{
  Zone, PhysicalMemory, Vm, alloc_phys_block, free_phys_block, find_or_allocate_pt,
}
use learning_os.Vm.Zone.Blocks.{
  freed_entry, clear_present, fill_block, free_block_in, vm_free_block, vm_alloc_block,
}

-- The distance and the direction that an entry holds.
abbrev Holds : ℕ → ℕ → ℕ → Type 0
Holds entry offset negative = (field 12 40 entry ≡ offset) × (field 58 1 entry ≡ negative)

-- The distance goes into the address bits.
linked-address :
    (entry d : ℕ)
    → d < 2 ^ 52
    → field 12 40 (bit_or (bit_and entry (not64 entry_addr_mask)) d) ≡ d / 4096
linked-address entry d h =
    field-both 12 40 (bit_and entry (not64 entry_addr_mask)) d
      (field-masked 12 40 entry (not64 entry_addr_mask) refl)
    ∙ omega arith

-- The direction goes into bit 58.
backward-Holds :
    (linked d : ℕ) → field 12 40 linked ≡ d → Holds (bit_or linked pt_offset_negative) d 1
backward-Holds linked d h = (
  field-other 12 40 linked pt_offset_negative refl ∙ h,
  field-bit_or 58 1 linked pt_offset_negative ∙ omega (arith, bit_or-one (field 58 1 linked)),
)

forward-Holds :
    (linked d : ℕ) → field 12 40 linked ≡ d → Holds (bit_and linked (not64 pt_offset_negative)) d 0
forward-Holds linked d h = (
  field-kept 12 40 linked (not64 pt_offset_negative) refl ∙ h,
  field-masked 58 1 linked (not64 pt_offset_negative) refl,
)

-- What `vm_free_block` puts into the entry.
freed-Holds :
    (entry addr next : ℕ)
    → next < addr + 2 ^ 52
    → addr < next + 2 ^ 52
    → Holds
        (freed_entry entry addr next)
        (if ltb next addr then (addr - next) / 4096 else (next - addr) / 4096)
        (if ltb next addr then 1 else 0)
unfolding freed_entry
freed-Holds entry addr next near far = elim (Bool-cases (ltb next addr)) [
  | inl before ↦
      let distance : ltb addr next ≡ false = ground arith in
      rw (before, distance) (backward-Holds _ _ (linked-address entry (addr - next) (omega arith)))
  | inr behind ↦
      let d = if ltb addr next then next - addr else addr - next in
      let same : d ≡ next - addr = ground arith in
      rw behind
        (forward-Holds _ _ (linked-address entry d (ground arith) ∙ ap (λ (x : ℕ). x / 4096) same))
]

clear_present-Holds :
    (rounds entry offset negative : ℕ)
    → Holds entry offset negative
    → Holds (clear_present rounds entry) offset negative
unfolding clear_present
clear_present-Holds zero entry offset negative h = h
clear_present-Holds (suc rounds) entry offset negative h =
    clear_present-Holds rounds (bit_and entry (not64 pt_present)) offset negative (
      field-kept 12 40 entry (not64 pt_present) refl ∙ h.0,
      field-kept 58 1 entry (not64 pt_present) refl ∙ h.1,
    )

-- The entry of a block that is freed leads to the block that was the first free one.
next-freed :
    (rounds entry addr next : ℕ)
    → addr < 2 ^ 64
    → next < 2 ^ 64
    → addr % 4096 ≡ 0
    → next % 4096 ≡ 0
    → next < addr + 2 ^ 52
    → addr < next + 2 ^ 52
    → next_free_entry (clear_present rounds (freed_entry entry addr next)) addr ≡ next
unfolding next_free_entry
next-freed rounds entry addr next a n aligned n_aligned near far =
    let e = clear_present rounds (freed_entry entry addr next) in
    let (offset, sign) =
      clear_present-Holds rounds (freed_entry entry addr next) _ _
        (freed-Holds entry addr next near far) in
    ground (arith, has_bit 58 e, address_mask_lem e, offset, sign)

block_start :
    (addr order : ℕ)
    → (addr / 2 ^ (order + 12) * 2 ^ (order + 12) ≤ addr)
      × (addr / 2 ^ (order + 12) * 2 ^ (order + 12) % 4096 ≡ 0)
block_start addr order =
    let q = addr / 2 ^ (order + 12) in
    let split : q * 2 ^ (order + 12) ≡ q * 2 ^ order * 4096 =
      ap (λ (p : ℕ). q * p) (pow-add order 12) ∙ sym (mul_assoc q (2 ^ order) 4096) in
    (div-mul-le_self addr (2 ^ (order + 12)), omega (arith, split))

set-twice :
    {A : Type 0} (xs : List A) (i : ℕ) (x y : A)
    → get_elem? xs i ≡ some y
    → set (set xs i x) i y ≡ xs
set-twice [] i x y h = refl
set-twice (z ∷ xs) zero x y h = ground arith
set-twice {A} (z ∷ xs) (suc i) x y h = ap (λ (l : List A). z ∷ l) (set-twice xs i x y h)

small_block : (order : ℕ) → order < 8 → 2 ^ order < 256
small_block order h =
    omega (arith, pow-le-pow_right {n = 2} (omega arith) {i = order} {j = 7} (omega arith))

-- The address of the block that holds an address, and its number of pages.
abbrev pub block_base : Zone → ℕ → ℕ
block_base zone addr = aligndown addr (zone.block_order + 12)

abbrev pub block_pages : Zone → ℕ
block_pages zone = u8 (1 <<< zone.block_order)

module _ {A : Type 0} (physical : PhysicalMemory A) (cr3 : ℕ) (s : Vm A) (vmzone : ℕ) (zone : Zone)
    (there : get_elem? s.zones vmzone ≡ some zone) where
  -- The state that `vm_free_block` leaves.
  abbrev pub freed_state : ℕ → ℕ → A → Vm A
  freed_state base pt pool =
      let at = entry_at pt (pt_offset base) in
      let rounds = u8 (1 <<< zone.block_order) in
      record {
        mem = store s.mem at (clear_present rounds (freed_entry (s.mem at) base zone.cursor_addr));
        pool = pool;
        zones = set s.zones vmzone (record zone { cursor_addr = base });
      }

  -- `vm_alloc_block` where the walk meets no error.
  alloc_found :
      (t : Vm A) (z : Zone) (pt flags frame : ℕ) (pool' : A)
      → z.block_order < 8
      → get_elem? t.zones vmzone ≡ some z
      → traverse t.mem (kphys_addr cr3) z.cursor_addr flags
        ≡ record { table = pt; depth = 0; error = 0 }
      → alloc_phys_block physical (u8 (1 <<< z.block_order)) flags t.pool ≡ some (frame, pool')
      → let entry = t.mem (entry_at pt (pt_offset z.cursor_addr)) in
        vm_alloc_block physical cr3 flags vmzone t
        ≡ some (
          z.cursor_addr,
          record {
            mem =
                fill_block t.mem pt
                  (pt_offset z.cursor_addr)
                  entry
                  flags
                  0
                  (1 <<< z.block_order)
                  frame;
            pool = pool';
            zones =
                set t.zones vmzone (record z { cursor_addr = next_free_entry entry z.cursor_addr });
          },
        )
  unfolding vm_alloc_block find_or_allocate_pt
  alloc_found t z pt flags frame pool' o at walk taken =
      let ends : leb 256 (1 <<< z.block_order) ≡ false =
        ground (arith, small_block z.block_order o) in
      rw (at, walk, taken, ends) refl

  freed_at :
      (addr : ℕ)
      → let base = aligndown addr (zone.block_order + 12) in
        vm_free_block physical cr3 addr vmzone s
        ≡ free_block_in physical cr3 zone vmzone base
            (find_pt_or_null s.mem (kphys_addr cr3) base)
            s
  unfolding vm_free_block
  freed_at addr = rw there refl

  -- `vm_free_block` where the walk finds the table.
  freed_found :
      (base pt : ℕ) (table : Option ℕ) (pool : A)
      → table ≡ some pt
      → free_phys_block physical
          (s.mem (entry_at pt (pt_offset base)))
          (u8 (1 <<< zone.block_order))
          s.pool
        ≡ some pool
      → free_block_in physical cr3 zone vmzone base table s ≡ some (0, freed_state base pt pool)
  unfolding free_block_in
  freed_found base pt table pool found freed = rw found (rw freed refl)

  -- `vm_free_block` of a block and `vm_alloc_block` behind it, where the walk to the block meets no
  -- error before and behind, and the physical memory is freed and allocated without a fault and
  -- without a slab mapped for the allocator's entries, in a zone of blocks of fewer than 256 pages:
  -- both return, the block that was freed is given out, and the zones are as they were, so that the
  -- block is followed by the one that was the first free one. The address of the block is below
  -- 2^64, the first free block is a multiple of 4096 and less than 2^52 bytes away.
  pub alloc-free :
      (addr flags pt frame : ℕ) (pool pool' : A)
      → addr < 2 ^ 64
      → zone.block_order < 8
      → zone.cursor_addr < 2 ^ 64
      → zone.cursor_addr % 4096 ≡ 0
      → zone.cursor_addr < block_base zone addr + 2 ^ 52
      → block_base zone addr < zone.cursor_addr + 2 ^ 52
      → find_pt_or_null s.mem (kphys_addr cr3) (block_base zone addr) ≡ some pt
      → free_phys_block physical
          (s.mem (entry_at pt (pt_offset (block_base zone addr))))
          (block_pages zone)
          s.pool
        ≡ some pool
      → traverse
          (freed_state (block_base zone addr) pt pool).mem
          (kphys_addr cr3)
          (block_base zone addr)
          flags
        ≡ record { table = pt; depth = 0; error = 0 }
      → alloc_phys_block physical (block_pages zone) flags pool ≡ some (frame, pool')
      → (s1 : Vm A) × (s2 : Vm A) × (vm_free_block physical cr3 addr vmzone s ≡ some (0, s1))
        × (vm_alloc_block physical cr3 flags vmzone s1 ≡ some (block_base zone addr, s2))
        × (s2.zones ≡ s.zones)
  alloc-free addr flags pt frame pool pool' a o c aligned near far found freed walk taken =
      let base = aligndown addr (zone.block_order + 12) in
      let s1 = freed_state base pt pool in
      let offset = pt_offset base in
      let start = aligndown_lem addr (zone.block_order + 12) a (omega arith) in
      let bounded : base < 2 ^ 64 =
        let (below, multiple) = block_start addr zone.block_order in omega (arith, start, below) in
      let whole : base % 4096 ≡ 0 =
        ap (λ (b : ℕ). b % 4096) start ∙ (block_start addr zone.block_order).1 in
      let entry = s1.mem (entry_at pt offset) in
      let next = record zone { cursor_addr = next_free_entry entry base } in
      let s2 : Vm A = record {
        mem = fill_block s1.mem pt offset entry flags 0 (1 <<< zone.block_order) frame;
        pool = pool';
        zones = set s1.zones vmzone next;
      } in
      let onward : next_free_entry entry base ≡ zone.cursor_addr =
        ap (λ (e : ℕ). next_free_entry e base) (store_self s.mem (entry_at pt offset) _)
        ∙ next-freed (u8 (1 <<< zone.block_order)) _ base zone.cursor_addr bounded c whole aligned
            near far in
      (
        s1,
        s2,
        freed_at addr ∙ freed_found base pt _ pool found freed,
        alloc_found s1 (record zone { cursor_addr = base }) pt flags frame pool' o
            (get_elem?-set_self s.zones vmzone _ (lt_of_get_elem? s.zones vmzone there)) walk taken,
        set-twice s.zones vmzone _ next
            (there ∙ ap (λ (c : ℕ). some (record zone { cursor_addr = c })) (sym onward)),
      )
