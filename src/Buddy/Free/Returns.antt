-- ===== src/Buddy/Free/Returns.antt =====
-- When `buddy_free_block` of kernel/src/mm/buddy_alloc.c ends.
use learning_os.Base.{
  ℕ, zero, suc, ◌+◌, ◌/◌, ◌%◌, ◌^◌, ◌≤◌, ◌<◌, ◌≡◌, refl, ◌∙◌, ap, true, false, some, List,
  get_elem?_lt, min, arith, ltb, ◌>>=◌, Bool-cases, inl, inr, ◌⊎◌, u64, sub64, ◌<<<◌,
}
use native.Mathlib.Numerals.{add-one}
use native.Mathlib.Nat.{mul-mod_left}
use learning_os.Bitmap.{bmp_get_bit}
use learning_os.BootMmap.{PhysmemRegion}
use learning_os.Buddy.Index.{max_order, buddy_bmp_index_of, buddy_page_offset}
use learning_os.Buddy.Index.Buddies.{buddy_page_offset_value}
use learning_os.Buddy.State.{BuddyAllocator, set_pair, release_freelist_entry}
use learning_os.Buddy.State.Frame.{HasLists}
use learning_os.Buddy.Free.Pages.{offset_of, IsBlock, merges, give_single, give_block_lem, freed}
use learning_os.Buddy.Valid.{IsValid, InUse, free_block-IsValid}
use learning_os.Buddy.Pages.{covers, free_pages}
use learning_os.Buddy.Free.{
  pop_freelist_entry, merge, can_coalesce, Coalesced, coalesce, insert_coalesced, give_block,
  buddy_free_block,
}
use learning_os.Buddy.Free.Tells.{Tells, block_start, index_start, merged_start, pop_buddy}

-- The block that the loop carries is the one of its order that the page `off` lies in.
pub record OnTheWay (off : ℕ) (c : Coalesced) : Type 0 where
  pub start : c.offset ≡ block_start off c.order
  pub small : c.order ≤ max_order
  pub tells : Tells c.state off c.order

release-Tells :
    (b : BuddyAllocator) (index off k : ℕ)
    → Tells (set_pair b index 0) off k
    → Tells (set_pair (release_freelist_entry b) index 0) off k
unfolding set_pair release_freelist_entry
release-Tells b index off k t = record {
  lists = t.lists;
  bytes = t.bytes;
  in_range = t.in_range;
  free = t.free;
}

merge_returns :
    (regions : List PhysmemRegion) (off : ℕ) (c : Coalesced)
    → OnTheWay off c
    → c.order < max_order
    → can_coalesce regions c.state c.offset c.order ≡ true
    → (d : Coalesced) × (merge c ≡ some d) × OnTheWay off d × (d.order ≡ suc c.order)
unfolding merge can_coalesce
merge_returns regions off c w below go =
    let k = c.order in
    let start : buddy_bmp_index_of c.offset k ≡ buddy_bmp_index_of off k =
      ap (λ (t : ℕ). buddy_bmp_index_of t k) w.start ∙ index_start off k below in
    let on : bmp_get_bit c.state.mem c.state.buddy_state_map (buddy_bmp_index_of off k) ≡ 1 =
      ground (arith, start) in
    let (b, popped, tells) = pop_buddy c.state off k below w.tells on in
    let merged =
      ap (λ (t : ℕ). min (block_start off k) t)
        (buddy_page_offset_value (block_start off k) k (omega arith)
          (mul-mod_left (off / 2 ^ k) (2 ^ k)))
      ∙ merged_start off k below in
    rw (start, w.start, popped, add-one)
      (
        _,
        refl,
        record {
          start = merged;
          small = below;
          tells = release-Tells b (buddy_bmp_index_of off k) off (suc k) tells;
        },
        refl,
      )

coalesce_returns :
    (n : ℕ) (regions : List PhysmemRegion) (off : ℕ) (c : Coalesced)
    → OnTheWay off c
    → max_order < c.order + n
    → (d : Coalesced) × (coalesce n regions c ≡ some d) × HasLists d.state × (d.order ≤ max_order)
unfolding coalesce
coalesce_returns zero regions off c w enough = absurd (omega (arith, w.small))
coalesce_returns (suc n) regions off c w enough = elim (Bool-cases (ltb c.order max_order)) [
  | inr last ↦ rw (last, coalesce) (c, refl, w.tells.lists, w.small)
  | inl below ↦ elim (Bool-cases (can_coalesce regions c.state c.offset c.order)) [
    | inr stop ↦ rw (below, stop, coalesce) (_, refl, w.tells.lists, w.small)
    | inl go ↦
        let (d, merged, way, next) = merge_returns regions off c w (ground arith) go in
        rw (below, go, coalesce, merged)
          (coalesce_returns n regions off d way (omega (arith, next)))
  ]
]

insert_returns :
    (c : Coalesced)
    → HasLists c.state
    → c.order ≤ max_order
    → (a' : BuddyAllocator) × (insert_coalesced c ≡ some a')
unfolding insert_coalesced
insert_returns c lists small =
    let (l, at) = get_elem?_lt c.state.freelists c.order (omega arith) in rw at (_, refl)

own_start : (off k : ℕ) → k < max_order → off % 2 ^ k ≡ 0 → block_start off k ≡ off
own_start off zero h a = omega arith
own_start off (suc zero) h a = omega arith
own_start off (suc (suc zero)) h a = omega arith
own_start off (suc (suc (suc zero))) h a = omega arith
own_start off (suc (suc (suc (suc zero)))) h a = omega arith
own_start off (suc (suc (suc (suc (suc zero))))) h a = omega arith
own_start off (suc (suc (suc (suc (suc (suc zero)))))) h a = omega arith
own_start off (suc (suc (suc (suc (suc (suc (suc k))))))) h a = absurd (omega arith)

-- The buddy of the block is on its list: the block is merged and goes to a list.
merged_returns :
    (regions : List PhysmemRegion) (a : BuddyAllocator) (off order : ℕ)
    → order < max_order
    → off % 2 ^ order ≡ 0
    → Tells a off order
    → bmp_get_bit a.mem a.buddy_state_map (buddy_bmp_index_of off order) ≡ 1
    → (a' : BuddyAllocator) × ((let index = buddy_bmp_index_of off order in
          let buddy = buddy_page_offset off order in
          do
            b ← pop_freelist_entry a buddy order
            c ← coalesce (max_order + 1) regions (record {
              state = set_pair b index 0;
              offset = min off buddy;
              order = order + 1;
              bmp_index = index;
            })
            insert_coalesced c)
        ≡ some a')
merged_returns regions a off order small aligned t on =
    let own = own_start off order small aligned in
    let (b, popped, tells) = pop_buddy a off order small t on in
    let popped' : pop_freelist_entry a (buddy_page_offset off order) order ≡ some b =
      rw own at popped in
    let merged : min off (buddy_page_offset off order) ≡ block_start off (suc order) =
      ap (λ (t : ℕ). min off t) (buddy_page_offset_value off order (omega arith) aligned)
      ∙ (rw own at (merged_start off order small)) in
    let start : Coalesced = record {
      state = set_pair b (buddy_bmp_index_of off order) 0;
      offset = min off (buddy_page_offset off order);
      order = order + 1;
      bmp_index = buddy_bmp_index_of off order;
    } in
    let way : OnTheWay off start =
      rw add-one (record { start = merged; small = small; tells = tells }) in
    let (d, coalesced, lists, below) =
      coalesce_returns (max_order + 1) regions off start way (omega arith) in
    let (a', inserted) = insert_returns d lists below in rw (popped', coalesced) (a', inserted)

pub give_returns :
    (regions : List PhysmemRegion) (a : BuddyAllocator) (block_base order : ℕ)
    → IsBlock a block_base order
    → (order < max_order) ⊎ (merges regions a block_base order ≡ false)
    → Tells a (offset_of a block_base) order
    → 0 < a.total_free_objects
    → (a' : BuddyAllocator) × (give_block regions a block_base order ≡ some a')
unfolding give_block
give_returns regions a block_base order (small, aligned, fits) below t stock =
    let off = offset_of a block_base in
    elim (Bool-cases (merges regions a block_base order)) [
      | inl merging ↦
          let below' : order < max_order = elim below [ inl lt ↦ lt | inr single ↦ absurd (cc) ] in
          rw (merging, give_block)
            (merged_returns regions a off order below' aligned t (ground (arith, merging)))
      | inr single ↦
          let (b, returns, given) =
            give_single a off order (buddy_bmp_index_of off order) t.lists small fits stock in
          rw (single, give_block) (b, returns)
    ]

-- `buddy_free_block` of an aligned block within the 2^24 pages of the region's field, with no free
-- page, on a valid allocator whose cache has a free entry. The block has an order below 7, or an
-- order of 7 and does not meet the test for merging. From its order up to 6, every pair that it
-- lies in has a bit in the bitmap, and a bit that is on says that the buddy is on the list of its
-- order. Then the call ends without an undefined access, leaves a valid allocator in which just
-- the pages of the block have become free, and moves the size of the block between the two
-- counters.
pub free_block-returns :
    (regions : List PhysmemRegion) (a : BuddyAllocator) (block_base order : ℕ)
    → IsValid a
    → IsBlock a block_base order
    → (order < max_order) ⊎ (merges regions a block_base order ≡ false)
    → offset_of a block_base + 2 ^ order ≤ 2 ^ 24
    → InUse a (offset_of a block_base) (2 ^ order)
    → Tells a (offset_of a block_base) order
    → 0 < a.total_free_objects
    → (a' : BuddyAllocator) × (buddy_free_block regions a block_base order ≡ some a')
      × IsValid a'
      × ((x : ℕ)
          → free_pages a'.freelists x
            ≡ free_pages a.freelists x + covers order (offset_of a block_base) x)
      × (a'.free_space_bytes ≡ u64 (a.free_space_bytes + (1 <<< (order + 12))))
      × (a'.allocated_bytes ≡ sub64 a.allocated_bytes (1 <<< (order + 12)))
unfolding buddy_free_block
free_block-returns regions a block_base order v block below fits used t stock =
    let (b, gave) = give_returns regions a block_base order block below t stock in
    let given = give_block_lem regions a b block_base order v.lists block gave in
    let ended : buddy_free_block regions a block_base order ≡ some (freed b order) = rw gave refl in
    let (valid, pages, free_space, base) =
      free_block-IsValid regions a (freed b order) block_base order v block fits used ended in
    (
      freed b order,
      ended,
      valid,
      pages,
      free_space,
      ap (λ (t : ℕ). sub64 t (1 <<< (order + 12))) given.frame.allocated,
    )
