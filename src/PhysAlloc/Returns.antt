-- ===== src/PhysAlloc/Returns.antt =====
-- `phys_free` of kernel/src/mm/phys_alloc.c ends: every block of a run but the last one has a
-- buddy in use, and is put on its list as it is.
use learning_os.Base.{
  ℕ, zero, suc, ◌+◌, ◌-◌, ◌*◌, ◌/◌, ◌%◌, ◌^◌, ◌≤◌, ◌<◌, ◌≡◌, ◌≢◌, refl, ◌∙◌, ap, false, some, List,
  ◌∷◌, get_elem?, get_elem?_lt, get_elem?-set_ne, get_elem?-set_self, lt_of_get_elem?, set, length,
  length-set, arith, ◌==◌, if◌then◌else◌,
}
use native.Mathlib.Nat.{one-le-pow, div-div-eq-div-mul, mul-mod_left}
use native.Mathlib.Decide.{ℕ_discrete}
use learning_os.Bitmap.{bmp_get_bit, bmp_set_bit}
use learning_os.Bitmap.Laws.{get_bit-set_bit, set_bit-IsBytes}
use learning_os.BootMmap.{PhysmemRegion}
use learning_os.Buddy.Index.{max_order, buddy_bmp_index_of, buddy_page_offset}
use learning_os.Buddy.Index.Buddies.{buddy_page_offset_value}
use learning_os.Buddy.Index.Places.{index_iff}
use learning_os.Buddy.State.{BuddyAllocator, set_pair, allocate_freelist_entry}
use learning_os.Buddy.State.Frame.{take_object_lem}
use learning_os.Buddy.Free.{give_block, buddy_free_block}
use learning_os.Buddy.Free.Pages.{merges}
use learning_os.Buddy.Free.Unlink.{pop_lem}
use learning_os.Buddy.Free.Tells.{Tells, block_start, pop_buddy}
use learning_os.Buddy.Valid.{IsValid, InUse}
use learning_os.PhysAlloc.Alloc.{offset_of_address}
use learning_os.PhysAlloc.Runs.{address_of}
use learning_os.Base.Powers.{pow-add}

-- The block of order `k` that starts at `off`, the lower one of its pair, and a page `q` of the
-- upper one.
abbrev pub Upper : ℕ → ℕ → ℕ → Type 0
Upper off k q = (off % 2 ^ suc k ≡ 0) × (off + 2 ^ k ≤ q) × (q < off + 2 ^ suc k)

start-Upper :
    (off k q : ℕ)
    → k < max_order
    → Upper off k q
    → (off / 2 ^ suc k ≡ q / 2 ^ suc k)
      × ((if block_start q k % 2 ^ suc k == 0
            then block_start q k + 2 ^ k
            else block_start q k - 2 ^ k)
          ≡ off)
start-Upper off zero q h (a, lo, hi) = ground arith
start-Upper off (suc zero) q h (a, lo, hi) = ground arith
start-Upper off (suc (suc zero)) q h (a, lo, hi) = ground arith
start-Upper off (suc (suc (suc zero))) q h (a, lo, hi) = ground arith
start-Upper off (suc (suc (suc (suc zero)))) q h (a, lo, hi) = ground arith
start-Upper off (suc (suc (suc (suc (suc zero))))) q h (a, lo, hi) = ground arith
start-Upper off (suc (suc (suc (suc (suc (suc zero)))))) q h (a, lo, hi) = ground arith
start-Upper off (suc (suc (suc (suc (suc (suc (suc k))))))) q h u = absurd (omega arith)

module _ (a : BuddyAllocator) (off k q j : ℕ) (small : k < max_order) (upper : Upper off k q)
    (above : j ≤ k) (t : Tells a q j) where
  same_index : buddy_bmp_index_of off k ≡ buddy_bmp_index_of q k
  same_index =
      (index_iff off q k k (omega arith) (omega arith)).1
        (refl, (start-Upper off k q small upper).0)

  lower_buddy : buddy_page_offset (block_start q k) k ≡ off
  lower_buddy =
      buddy_page_offset_value (block_start q k) k (omega arith) (mul-mod_left (q / 2 ^ k) (2 ^ k))
      ∙ (start-Upper off k q small upper).1

  -- A block in use is on no list, so that the bit of its pair is off.
  bit_off : InUse a off (2 ^ k) → bmp_get_bit a.mem a.buddy_state_map (buddy_bmp_index_of off k) ≢ 1
  bit_off used on =
      let from_k : Tells a q k = record {
        lists = t.lists;
        bytes = t.bytes;
        in_range = λ i lo hi. t.in_range i (omega arith) hi;
        free = λ i lo hi. t.free i (omega arith) hi;
      } in
      let (b, popped, after) = pop_buddy a q k small from_k (rw same_index at on) in
      let (frame, pages) = pop_lem a b (buddy_page_offset (block_start q k) k) k popped in
      let size : 1 ≤ 2 ^ k = one-le-pow k 2 (omega arith) in
      absurd (
        ground (
          arith,
          size,
          lower_buddy,
          rw lower_buddy at (pages off),
          used off (omega arith) (omega arith),
        ))

  -- The block has joined its list, and the bit of its pair is on.
  joined_Tells :
      (l : List ℕ) (total free_space allocated : ℕ)
      → off < 2 ^ 24
      → get_elem? a.freelists k ≡ some l
      → length (set a.freelists k ((off % 2 ^ 24) ∷ l)) ≡ 8
      → Tells
          (record a {
            mem = (bmp_set_bit a.mem a.buddy_state_map (buddy_bmp_index_of off k) 1).1;
            freelists = set a.freelists k ((off % 2 ^ 24) ∷ l);
            total_free_objects = total;
            free_space_bytes = free_space;
            allocated_bytes = allocated;
          })
          q
          j
  joined_Tells l total free_space allocated fits at lists = rw same_index (record {
    lists = lists;
    bytes = set_bit-IsBytes a.mem a.buddy_state_map t.bytes (buddy_bmp_index_of q k) 1;
    in_range = t.in_range;
    free = λ i lo hi bit. elim (ℕ_discrete k i) [
      | yes same ↦
          rw (← same, lower_buddy)
            (_, get_elem?-set_self a.freelists k _ (lt_of_get_elem? a.freelists k at), ground arith)
      | no other ↦
          let apart : buddy_bmp_index_of q k ≢ buddy_bmp_index_of q i =
            λ e. other ((index_iff q q k i (omega arith) (omega arith)).0 e).0 in
          let (_, kept) =
            get_bit-set_bit a.mem a.buddy_state_map t.bytes (buddy_bmp_index_of q k)
              (buddy_bmp_index_of q i) 1 (t.in_range k above small) (t.in_range i lo hi) in
          let (l', at', has') = t.free i lo hi (ground (arith, kept)) in
          (l', get_elem?-set_ne a.freelists k i _ other ∙ at', has')
    ];
  })

  pub single_ends :
      (regions : List PhysmemRegion)
      → IsValid a
      → off + 2 ^ k ≤ 2 ^ 24
      → InUse a off (2 ^ k)
      → 0 < a.total_free_objects
      → (b : BuddyAllocator) × (buddy_free_block regions a (address_of a off) k ≡ some b)
        × Tells b q j
        × (suc b.total_free_objects ≡ a.total_free_objects)
  unfolding buddy_free_block give_block allocate_freelist_entry set_pair
  single_ends regions v fits used stock =
      let (total, took, left) = take_object_lem a.total_free_objects stock in
      let size : 1 ≤ 2 ^ k = one-le-pow k 2 (omega arith) in
      let at = offset_of_address a off v.base (omega arith) in
      let (l, found) = get_elem?_lt a.freelists k (omega (arith, v.lists)) in
      let single : merges regions a (address_of a off) k ≡ false =
        rw at (ground (arith, bit_off used)) in
      rw (single, at, took, found)
        (
          _,
          refl,
          joined_Tells l _ _ _ (omega arith) found
              (length-set a.freelists k ((off % 2 ^ 24) ∷ l) ∙ v.lists),
          left,
        )

coarser : (p q k d : ℕ) → p / 2 ^ k ≡ q / 2 ^ k → p / 2 ^ (k + d) ≡ q / 2 ^ (k + d)
coarser p q k d same =
    rw (pow-add k d, ← div-div-eq-div-mul p (2 ^ k) (2 ^ d), ← div-div-eq-div-mul q (2 ^ k) (2 ^ d))
      (ap (λ (t : ℕ). t / 2 ^ d) same)

-- What is known on the way up from a page holds on the way up from the start of its block.
pub start_Tells :
    (a : BuddyAllocator) (p q j k : ℕ) → j ≤ k → p / 2 ^ k ≡ q / 2 ^ k → Tells a q j → Tells a p k
start_Tells a p q j k above same t = record {
  lists = t.lists;
  bytes = t.bytes;
  in_range = λ i lo hi. rw (index i lo hi) (t.in_range i (omega arith) hi);
  free = λ i lo hi. rw (index i lo hi, block i lo) (t.free i (omega arith) hi);
}
  where
    quotient : (i : ℕ) → k ≤ i → p / 2 ^ i ≡ q / 2 ^ i
    quotient i lo =
        let sum : k + (i - k) ≡ i = omega arith in rw sum at (coarser p q k (i - k) same)

    block : (i : ℕ) → k ≤ i → block_start p i ≡ block_start q i
    block i lo = ap (λ (t : ℕ). t * 2 ^ i) (quotient i lo)

    index : (i : ℕ) → k ≤ i → i < max_order → buddy_bmp_index_of p i ≡ buddy_bmp_index_of q i
    index i lo hi =
        (index_iff p q i i (omega arith) (omega arith)).1 (refl, quotient (suc i) (omega arith))
