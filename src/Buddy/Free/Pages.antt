-- ===== src/Buddy/Free/Pages.antt =====
-- `buddy_free_block` of kernel/src/mm/buddy_alloc.c, by the pages that it moves.
use learning_os.Base.{
  ℕ, suc, ◌+◌, ◌%◌, ◌^◌, ◌≤◌, ◌<◌, ◌≡◌, refl, ◌∙◌, ap, sym, none, some, List, ◌∷◌, get_elem?,
  length-set, arith, ◌>>=◌, >>=-eq-some, eq_of_some, ltb, Bool, Bool-cases, Option-cases,
  get_elem?_ge, inl, inr, true, false, ◌==◌, ◌&&◌, min, sub64, u64, ◌>>>◌, ◌<<<◌,
}
use learning_os.Bitmap.{bmp_get_bit}
use learning_os.BootMmap.{PhysmemRegion, is_block_usable}
use learning_os.Buddy.Index.{buddy_bmp_index_of, buddy_page_offset, max_order}
use learning_os.Buddy.Index.Buddies.{Buddies-buddy_page_offset}
use learning_os.Buddy.Pages.{covers, free_pages, free_pages-set, covers-Buddies}
use learning_os.Buddy.State.{BuddyAllocator, set_pair, toggle_pair, allocate_freelist_entry}
use learning_os.Buddy.State.Frame.{
  HasLists, SameFrame, SameFrame-trans, allocate_lem, allocated-positive,
}
use learning_os.Buddy.Free.{
  pop_freelist_entry, Coalesced, coalesce, insert_coalesced, give_block, buddy_free_block,
}
use learning_os.Buddy.Free.Unlink.{pop_lem, coalesce_lem}
use native.Mathlib.Numerals.{add-one}

-- The page offset of a block in the region of the allocator.
abbrev pub offset_of : BuddyAllocator → ℕ → ℕ
offset_of a block_base = sub64 block_base a.base_addr >>> 12

-- A block that the allocator can have given out: aligned, and within the field of an entry.
abbrev pub IsBlock : BuddyAllocator → ℕ → ℕ → Type 0
IsBlock a block_base order =
    (order ≤ max_order)
    × (offset_of a block_base % 2 ^ order ≡ 0)
    × (offset_of a block_base < 2 ^ 24)

-- The test of `buddy_free_block` for merging the block with its buddy.
abbrev pub merges : List PhysmemRegion → BuddyAllocator → ℕ → ℕ → Bool
merges regions a block_base order =
    let order_bytes = 1 <<< (12 + order) in
    bmp_get_bit a.mem a.buddy_state_map (buddy_bmp_index_of (offset_of a block_base) order) == 1
    && is_block_usable regions (u64 (block_base + order_bytes)) order_bytes

-- The block `off` of order `order` has joined the free pages of `a`.
pub record Given (a : BuddyAllocator) (order off : ℕ) (a' : BuddyAllocator) : Type 0 where
  pub frame : SameFrame a a'
  pub pages : (x : ℕ) → free_pages a'.freelists x ≡ free_pages a.freelists x + covers order off x

set_pair-SameFrame : (a : BuddyAllocator) (i v : ℕ) → SameFrame a (set_pair a i v)
unfolding set_pair
set_pair-SameFrame a i v = record {
  lists = refl;
  base = refl;
  end = refl;
  free_space = refl;
  allocated = refl;
  bitmap = refl;
}

set_pair-freelists : (a : BuddyAllocator) (i v : ℕ) → (set_pair a i v).freelists ≡ a.freelists
unfolding set_pair
set_pair-freelists a i v = refl

insert_coalesced_lem :
    (c : Coalesced) (a' : BuddyAllocator)
    → c.offset < 2 ^ 24
    → insert_coalesced c ≡ some a'
    → Given c.state c.order c.offset a'
unfolding insert_coalesced toggle_pair
insert_coalesced_lem c a' fits h =
    let a = c.state in
    let (l, at, h1) = >>=-eq-some (get_elem? a.freelists c.order) _ h in
    let whole : c.offset % 2 ^ 24 ≡ c.offset = omega arith in
    rw (← eq_of_some h1) (record {
      frame = record {
        lists = length-set a.freelists c.order _;
        base = refl;
        end = refl;
        free_space = refl;
        allocated = refl;
        bitmap = refl;
      };
      pages =
          λ x. rw whole (omega (arith, free_pages-set c.order a.freelists l (c.offset ∷ l) x at));
    })

give_merged :
    (regions : List PhysmemRegion) (a a' : BuddyAllocator) (off order : ℕ)
    → order ≤ max_order
    → off % 2 ^ order ≡ 0
    → off < 2 ^ 24
    → (let index = buddy_bmp_index_of off order in
        let buddy = buddy_page_offset off order in
        do
          b ← pop_freelist_entry a buddy order
          c ← coalesce (max_order + 1) regions (record {
            state = set_pair b index 0;
            offset = min off buddy;
            order = order + 1;
            bmp_index = index;
          })
          insert_coalesced c)
      ≡ some a'
    → Given a order off a'
give_merged regions a a' off order small aligned fits h =
    let index = buddy_bmp_index_of off order in
    let buddy = buddy_page_offset off order in
    let pair = Buddies-buddy_page_offset off order small aligned in
    let (b, popped, h1) = >>=-eq-some (pop_freelist_entry a buddy order) _ h in
    let start : Coalesced = record {
      state = set_pair b index 0;
      offset = min off buddy;
      order = order + 1;
      bmp_index = index;
    } in
    let (c, coalesced, h2) = >>=-eq-some (coalesce (max_order + 1) regions start) _ h1 in
    let (frame, pages) = pop_lem a b buddy order popped in
    let carries = coalesce_lem (max_order + 1) regions start c (rw add-one pair.0) coalesced in
    let given = insert_coalesced_lem c a' (omega (arith, carries.below)) h2 in
    record {
      frame = SameFrame-trans frame (
          SameFrame-trans (set_pair-SameFrame b index 0)
            (SameFrame-trans carries.frame given.frame));
      pages = λ x. omega (
        arith,
        pages x,
        carries.pages x,
        given.pages x,
        covers-Buddies order off buddy x pair,
        ap (λ (ls : List (List ℕ)). free_pages ls x) (set_pair-freelists b index 0),
        ap (λ (t : ℕ). covers t (min off buddy) x) (add-one order),
      );
    }

pub give_single :
    (a : BuddyAllocator) (off order index : ℕ)
    → HasLists a
    → order ≤ max_order
    → off < 2 ^ 24
    → 0 < a.total_free_objects
    → (a' : BuddyAllocator) × ((do
      b ← allocate_freelist_entry a off order
      some (set_pair b index 1))
        ≡ some a')
      × Given a order off a'
give_single a off order index lists small fits stock =
    let (b, made, frame, used, pages) = allocate_lem a off order lists small fits stock in
    rw made (
      set_pair b index 1,
      refl,
      record {
        frame = SameFrame-trans frame (set_pair-SameFrame b index 1);
        pages = λ x.
            ap (λ (ls : List (List ℕ)). free_pages ls x) (set_pair-freelists b index 1) ∙ pages x;
      },
    )

pub give_block_lem :
    (regions : List PhysmemRegion) (a a' : BuddyAllocator) (block_base order : ℕ)
    → HasLists a
    → IsBlock a block_base order
    → give_block regions a block_base order ≡ some a'
    → Given a order (offset_of a block_base) a'
unfolding give_block
give_block_lem regions a a' block_base order lists (small, aligned, fits) h =
    elim (Bool-cases (merges regions a block_base order)) [
      | inl merging ↦
          give_merged regions a a' (offset_of a block_base) order small aligned fits
            (rw (merging, give_block) at h)
      | inr single ↦
          let (c, made, rest) =
            >>=-eq-some (allocate_freelist_entry a (offset_of a block_base) order) _
              (rw (single, give_block) at h) in
          let (b, returns, given) =
            give_single a (offset_of a block_base) order
              (buddy_bmp_index_of (offset_of a block_base) order) lists small fits
              (allocated-positive a c (offset_of a block_base) order made) in
          rw (← eq_of_some (sym returns ∙ (rw (single, give_block) at h))) given
    ]

abbrev pub freed : BuddyAllocator → ℕ → BuddyAllocator
freed a order = record a {
  free_space_bytes = u64 (a.free_space_bytes + (1 <<< (order + 12)));
  allocated_bytes = sub64 a.allocated_bytes (1 <<< (order + 12));
}

-- With a free entry, `buddy_free_block` of a block that does not meet the test for merging ends
-- without an undefined access, with exactly the pages of the block added to the free pages.
pub free_single :
    (regions : List PhysmemRegion) (a : BuddyAllocator) (block_base order : ℕ)
    → HasLists a
    → IsBlock a block_base order
    → merges regions a block_base order ≡ false
    → 0 < a.total_free_objects
    → (a' : BuddyAllocator) × (buddy_free_block regions a block_base order ≡ some a')
      × ((x : ℕ)
          → free_pages a'.freelists x
            ≡ free_pages a.freelists x + covers order (offset_of a block_base) x)
unfolding buddy_free_block give_block
free_single regions a block_base order lists (small, aligned, fits) single stock =
    let (b, returns, given) =
      give_single a (offset_of a block_base) order
        (buddy_bmp_index_of (offset_of a block_base) order) lists small fits stock in
    rw (single, returns) (freed b order, refl, given.pages)

coalesce_top :
    (k : ℕ) (regions : List PhysmemRegion) (c : Coalesced)
    → max_order < c.order
    → coalesce (suc k) regions c ≡ some c
unfolding coalesce
coalesce_top k regions c above =
    let stop : ltb c.order max_order ≡ false = ground arith in rw (stop, coalesce)

past_end : (c : Coalesced) → HasLists c.state → max_order < c.order → insert_coalesced c ≡ none
unfolding insert_coalesced
past_end c lists above = rw (get_elem?_ge c.state.freelists c.order (omega arith))

-- `buddy_free_block` of a block of the largest order that meets the test for merging always makes
-- an undefined access: the merged block would go to a list past the end of `freelists`, or before
-- that the buddy has no entry.
pub free_largest_faults :
    (regions : List PhysmemRegion) (a : BuddyAllocator) (block_base : ℕ)
    → HasLists a
    → merges regions a block_base max_order ≡ true
    → buddy_free_block regions a block_base max_order ≡ none
unfolding buddy_free_block give_block
free_largest_faults regions a block_base lists merging =
    let off = offset_of a block_base in
    let buddy = buddy_page_offset off max_order in
    rw merging (elim (Option-cases (pop_freelist_entry a buddy max_order)) [
      | inl missing ↦ rw missing
      | inr (b, popped) ↦
          let (frame, pages) = pop_lem a b buddy max_order popped in
          let start : Coalesced = record {
            state = set_pair b (buddy_bmp_index_of off max_order) 0;
            offset = min off buddy;
            order = max_order + 1;
            bmp_index = buddy_bmp_index_of off max_order;
          } in
          let same = set_pair-SameFrame b (buddy_bmp_index_of off max_order) 0 in
          rw (
            popped,
            coalesce_top max_order regions start (omega arith),
            past_end start (same.lists ∙ frame.lists ∙ lists) (omega arith),
          )
    ])
