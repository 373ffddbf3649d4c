-- ===== src/PhysAlloc/Keeps.antt =====
-- What `buddy_shrink_block` of kernel/src/mm/buddy_alloc.c leaves alone, for the blocks behind it
-- in a run of kernel/src/mm/phys_alloc.c.
use learning_os.Base.{
  ℕ, zero, suc, ◌+◌, ◌-◌, ◌/◌, ◌%◌, ◌^◌, ◌≤◌, ◌<◌, ◌≡◌, ◌≢◌, ◌∙◌, ap, sym, true, false, some, List,
  ◌∷◌, get_elem?, get_elem?-set_ne, get_elem?-set_self, lt_of_get_elem?, length-set, arith, ltb,
  ◌==◌, Mem, u8, int_bit, >>=-eq-some, eq_of_some, subst,
}
use native.Mathlib.Nat.{mod-eq_of_lt}
use native.Mathlib.Decide.{dec_lt, ℕ_discrete}
use learning_os.Base.Powers.{double_pow}
use learning_os.Bitmap.{bmp_get_bit, bmp_set_bit}
use learning_os.Bitmap.Laws.{get_bit-set_bit, set_bit-IsBytes, out_of_range}
use learning_os.Buddy.Index.{max_order, buddy_bmp_index_of, buddy_page_offset}
use learning_os.Buddy.Index.Places.{index_iff}
use learning_os.Buddy.State.{BuddyAllocator, take_object, set_pair, allocate_freelist_entry}
use learning_os.Buddy.Free.Tells.{Tells, has_entry, block_start}
use learning_os.Buddy.Aligned.{aligned_halves}
use learning_os.Buddy.Shrink.Pages.{done_at}
use learning_os.Buddy.Shrink.{shrink_loop, block_offset_of, buddy_shrink_block}

set_pair-Tells :
    (a : BuddyAllocator) (index v q j : ℕ)
    → ((i : ℕ) → i < max_order → index ≢ buddy_bmp_index_of q i)
    → Tells a q j
    → Tells (set_pair a index v) q j
unfolding set_pair
set_pair-Tells a index v q j apart t = record {
  lists = t.lists;
  bytes = set_bit-IsBytes a.mem a.buddy_state_map t.bytes index v;
  in_range = t.in_range;
  free = λ i lo hi on. t.free i lo hi (sym (kept i lo hi) ∙ on);
}
  where
    kept :
        (i : ℕ)
        → j ≤ i
        → i < max_order
        → bmp_get_bit
            (bmp_set_bit a.mem a.buddy_state_map index v).1
            a.buddy_state_map
            (buddy_bmp_index_of q i)
          ≡ bmp_get_bit a.mem a.buddy_state_map (buddy_bmp_index_of q i)
    kept i lo hi = elim (dec_lt (index / 8) a.buddy_state_map.size_bytes) [
      | yes inside ↦
          let (_, bit) =
            get_bit-set_bit a.mem a.buddy_state_map t.bytes index (buddy_bmp_index_of q i) v inside
              (t.in_range i lo hi) in
          ground (arith, bit, apart i hi)
      | no outside ↦
          let (_, same, toggled) = out_of_range a.mem a.buddy_state_map index (omega arith) v in
          ap (λ (m : ℕ × Mem). bmp_get_bit m.1 a.buddy_state_map (buddy_bmp_index_of q i)) same
    ]

allocate-Tells :
    (a b : BuddyAllocator) (page_offset order q j : ℕ)
    → allocate_freelist_entry a page_offset order ≡ some b
    → Tells a q j
    → Tells b q j
unfolding allocate_freelist_entry
allocate-Tells a b page_offset order q j h t =
    let (total, took, h0) = >>=-eq-some (take_object a.total_free_objects) _ h in
    let (l, at, made) = >>=-eq-some (get_elem? a.freelists order) _ h0 in
    rw (← eq_of_some made) (record {
      lists = length-set a.freelists order _ ∙ t.lists;
      bytes = t.bytes;
      in_range = t.in_range;
      free = λ i lo hi on.
          let (l', at', has) = t.free i lo hi on in
          elim (ℕ_discrete order i) [
            | yes same ↦
                let one : l' ≡ l = eq_of_some (sym at' ∙ (rw same at at)) in
                (
                  (page_offset % 2 ^ 24) ∷ l,
                  rw (← same) (
                      get_elem?-set_self a.freelists order ((page_offset % 2 ^ 24) ∷ l)
                        (lt_of_get_elem? a.freelists order at)),
                  ground (
                    arith,
                    ap (λ (es : List ℕ). has_entry es (buddy_page_offset (block_start q i) i)) one,
                    has,
                  ),
                )
            | no other ↦ (l', get_elem?-set_ne a.freelists order i _ other ∙ at', has)
          ];
    })

behind :
    (off q t : ℕ)
    → t < max_order
    → off % 2 ^ suc t ≡ 0
    → off + 2 ^ suc t ≤ q
    → off / 2 ^ suc t ≢ q / 2 ^ suc t
behind off q zero h a lo e = absurd (omega arith)
behind off q (suc zero) h a lo e = absurd (omega arith)
behind off q (suc (suc zero)) h a lo e = absurd (omega arith)
behind off q (suc (suc (suc zero))) h a lo e = absurd (omega arith)
behind off q (suc (suc (suc (suc zero)))) h a lo e = absurd (omega arith)
behind off q (suc (suc (suc (suc (suc zero))))) h a lo e = absurd (omega arith)
behind off q (suc (suc (suc (suc (suc (suc zero)))))) h a lo e = absurd (omega arith)
behind off q (suc (suc (suc (suc (suc (suc (suc t))))))) h a lo e = absurd (omega arith)

apart_index :
    (off q t : ℕ)
    → t < max_order
    → off % 2 ^ suc t ≡ 0
    → off + 2 ^ suc t ≤ q
    → (i : ℕ) → i < max_order
    → buddy_bmp_index_of off t ≢ buddy_bmp_index_of q i
apart_index off q t small here lo i hi e =
    behind off q t small here lo ((index_iff off q t i (omega arith) (omega arith)).0 e).1

whole_Tells :
    (s k : ℕ) (a a' : BuddyAllocator) (off num left q j : ℕ)
    → s ≤ max_order
    → num ≡ 2 ^ s
    → Tells a q j
    → shrink_loop (suc k) a off num (u8 (s + 255)) ≡ some (left, a')
    → Tells a' q j
whole_Tells s k a a' off num left q j small whole t h =
    let done : shrink_loop (suc k) a off num (u8 (s + 255)) ≡ some (2 ^ s, a) =
      rw whole (done_at k a off s (omega arith)) in
    let same : a ≡ a' = ap (λ (r : ℕ × BuddyAllocator). r.1) (eq_of_some (sym done ∙ h)) in
    subst (λ b. Tells b q j) same t

-- The loop splits a block of order `s` in front of the page `q`.
shrink_loop-Tells :
    (s k : ℕ) (a a' : BuddyAllocator) (off num left q j : ℕ)
    → s ≤ max_order
    → 0 < num
    → num ≤ 2 ^ s
    → off % 2 ^ s ≡ 0
    → off + 2 ^ s ≤ q
    → Tells a q j
    → shrink_loop k a off num (u8 (s + 255)) ≡ some (left, a')
    → Tells a' q j
unfolding shrink_loop
shrink_loop-Tells s zero a a' off num left q j small pos size here lo t h = cc
shrink_loop-Tells zero (suc k) a a' off num left q j small pos size here lo t h =
    whole_Tells zero k a a' off num left q j small (omega arith) t h
shrink_loop-Tells (suc s) (suc k) a a' off num left q j small pos size here lo t h =
    elim (ℕ_discrete num (2 ^ suc s)) [
      | yes whole ↦ whole_Tells (suc s) k a a' off num left q j small whole t h
      | no part ↦
          let byte : u8 (suc s + 255) ≡ s = omega arith in
          let bit : int_bit s ≡ 2 ^ s = ap (λ (e : ℕ). 2 ^ e) (mod-eq_of_lt (omega arith)) in
          let above : int_bit (s + 1) ≡ 2 ^ suc s = ap (λ (e : ℕ). 2 ^ e) (omega arith) in
          let partial : (num == int_bit (s + 1)) ≡ false = rw above (ground arith) in
          let index = buddy_bmp_index_of off s in
          let apart = apart_index off q s small here lo in
          let (low, high) = aligned_halves off s (omega arith) here in
          elim (dec_lt (2 ^ s) num) [
            | yes right ↦
                let goes : ltb (int_bit s) num ≡ true = rw bit (ground arith) in
                let h1 = rw (byte, partial, goes, bit, shrink_loop) at h in
                shrink_loop-Tells s k (set_pair a index 0) a' (off + 2 ^ s) (num - 2 ^ s) left q j
                  (omega arith) (omega arith) (omega (arith, double_pow s)) high
                  (omega (arith, double_pow s)) (set_pair-Tells a index 0 q j apart t) h1
            | no within ↦
                let goes : ltb (int_bit s) num ≡ false = rw bit (ground arith) in
                let h1 = rw (byte, partial, goes, shrink_loop) at h in
                let (b, made, h2) =
                  >>=-eq-some (allocate_freelist_entry a (off + int_bit s) s) _ h1 in
                shrink_loop-Tells s k (set_pair b index 1) a' off num left q j (omega arith) pos
                  (omega arith) low (omega (arith, double_pow s))
                  (set_pair-Tells b index 1 q j apart
                    (allocate-Tells a b (off + int_bit s) s q j made t))
                  h2
          ]
    ]

-- A block that is cut in front of the page `q`.
pub shrink_block-Tells :
    (a b : BuddyAllocator) (block_base k t q j : ℕ)
    → k ≤ max_order
    → 0 < t
    → t ≤ 2 ^ k
    → block_offset_of a block_base k % 2 ^ k ≡ 0
    → block_offset_of a block_base k + 2 ^ k ≤ q
    → Tells a q j
    → buddy_shrink_block a block_base k t ≡ some b
    → Tells b q j
unfolding buddy_shrink_block
shrink_block-Tells a b block_base k t q j small pos size here lo tells h =
    let ((left, a'), looped, made) =
      >>=-eq-some (shrink_loop (max_order + 2) a (block_offset_of a block_base k) t (u8 (k + 255)))
        _ h in
    let after =
      shrink_loop-Tells k 9 a a' (block_offset_of a block_base k) t left q j small pos size here lo
        tells looped in
    rw (← eq_of_some made) (record {
      lists = after.lists;
      bytes = after.bytes;
      in_range = after.in_range;
      free = after.free;
    })
