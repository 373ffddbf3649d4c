-- ===== src/Buddy/Aligned/Giving.antt =====
-- Giving blocks back, by `buddy_free_block` and `buddy_shrink_block`, keeps the free blocks
-- aligned.
use learning_os.Base.{
  ℕ, zero, suc, ◌+◌, ◌-◌, ◌%◌, ◌^◌, ◌≤◌, ◌<◌, ◌≡◌, ap, subst, some, List, [], ◌∷◌, get_elem?, set,
  arith, ◌>>=◌, >>=-eq-some, eq_of_some, int_bit, u8, ltb, ◌==◌, true, Bool-cases, inl, inr, min,
}
use native.Mathlib.Numerals.{add-one}
use learning_os.BootMmap.{PhysmemRegion}
use learning_os.Buddy.Index.{max_order, buddy_bmp_index_of, buddy_page_offset}
use learning_os.Buddy.Index.Buddies.{Buddies, Buddies-buddy_page_offset}
use learning_os.Buddy.State.{
  BuddyAllocator, allocate_freelist_entry, set_pair, toggle_pair, release_freelist_entry,
}
use learning_os.Buddy.Free.{
  unlink_entry, pop_freelist_entry, can_coalesce, Coalesced, merge, coalesce, insert_coalesced,
  give_block,
}
use learning_os.Buddy.Free.Unlink.{coalesce_lem}
use learning_os.Buddy.Shrink.{shrink_loop}
use learning_os.Buddy.Alloc.Split.{int_bit-small}
use learning_os.Base.Powers.{double_pow}
use native.Mathlib.Nat.{one-le-pow}
use learning_os.Buddy.Free.Pages.{IsBlock, offset_of, merges}
use learning_os.Buddy.Aligned.{
  aligned_halves, IsAligned, AlignedList, AlignedLists, AlignedLists-set, allocate-IsAligned,
}

unlink-AlignedList :
    (order : ℕ) (l rest : List ℕ) (p : ℕ)
    → AlignedList order l
    → unlink_entry l p ≡ some rest
    → AlignedList order rest
unfolding unlink_entry
unlink-AlignedList order [] rest p h e = cc
unlink-AlignedList order (x ∷ l) rest p (hx, h) e = elim (Bool-cases (x == p)) [
  | inl hit ↦ rw (← eq_of_some (rw (hit, unlink_entry) at e)) h
  | inr miss ↦
      let step : (unlink_entry l p >>= λ r. some (x ∷ r)) ≡ some rest =
        rw (miss, unlink_entry) at e in
      let (r, found, same) = >>=-eq-some (unlink_entry l p) (λ r. some (x ∷ r)) step in
      rw (← eq_of_some same) (hx, unlink-AlignedList order l r p h found)
]

pop-IsAligned :
    (a a' : BuddyAllocator) (p order : ℕ)
    → IsAligned a
    → pop_freelist_entry a p order ≡ some a'
    → IsAligned a'
unfolding pop_freelist_entry
pop-IsAligned a a' p order aligned h =
    let (l, at, h1) = >>=-eq-some (get_elem? a.freelists order) _ h in
    let (rest, found, h2) = >>=-eq-some (unlink_entry l p) _ h1 in
    rw (← eq_of_some h2) (
      AlignedLists-set a.freelists order rest at aligned
        (unlink-AlignedList order l rest p (aligned order l at) found))

merged-IsAligned :
    (a : BuddyAllocator) (i v : ℕ)
    → IsAligned a
    → IsAligned (set_pair (release_freelist_entry a) i v)
unfolding set_pair release_freelist_entry
merged-IsAligned a i v h = h

set_pair-IsAligned : (a : BuddyAllocator) (i v : ℕ) → IsAligned a → IsAligned (set_pair a i v)
unfolding set_pair
set_pair-IsAligned a i v h = h

abbrev BlockAligned : Coalesced → Type 0
BlockAligned c = IsAligned c.state × (c.offset % 2 ^ c.order ≡ 0)

merge-BlockAligned :
    (c c' : Coalesced) → c.order ≤ max_order → BlockAligned c → merge c ≡ some c' → BlockAligned c'
unfolding merge
merge-BlockAligned c c' small (aligned, here) h =
    let (a, popped, h1) =
      >>=-eq-some (pop_freelist_entry c.state (buddy_page_offset c.offset c.order) c.order) _ h in
    let kept =
      pop-IsAligned c.state a (buddy_page_offset c.offset c.order) c.order aligned popped in
    let pair = Buddies-buddy_page_offset c.offset c.order small here in
    let merged = merged-IsAligned a (buddy_bmp_index_of c.offset c.order) 0 kept in
    subst BlockAligned (eq_of_some h1) (merged, rw (add-one c.order) pair.0)

coalesce-BlockAligned :
    (k : ℕ) (regions : List PhysmemRegion) (c c' : Coalesced)
    → BlockAligned c
    → coalesce k regions c ≡ some c'
    → BlockAligned c'
unfolding coalesce
coalesce-BlockAligned zero regions c c' aligned h = cc
coalesce-BlockAligned (suc k) regions c c' aligned h = elim (Bool-cases (ltb c.order max_order)) [
  | inr last ↦ rw (← eq_of_some (rw (last, coalesce) at h)) aligned
  | inl below ↦ elim (Bool-cases (can_coalesce regions c.state c.offset c.order)) [
    | inr stop ↦ subst BlockAligned (eq_of_some (rw (below, stop, coalesce) at h)) aligned
    | inl go ↦
        let (d, merged, rest) =
          >>=-eq-some (merge c) (coalesce k regions) (rw (below, go, coalesce) at h) in
        coalesce-BlockAligned k regions d c' (merge-BlockAligned c d (ground arith) aligned merged)
          rest
  ]
]

insert-IsAligned :
    (c : Coalesced) (a' : BuddyAllocator)
    → c.offset < 2 ^ 24
    → BlockAligned c
    → insert_coalesced c ≡ some a'
    → IsAligned a'
unfolding insert_coalesced toggle_pair
insert-IsAligned c a' fits (aligned, here) h =
    let (l, at, h1) = >>=-eq-some (get_elem? c.state.freelists c.order) _ h in
    let whole : c.offset % 2 ^ 24 ≡ c.offset = omega arith in
    let new : AlignedLists (set c.state.freelists c.order ((c.offset % 2 ^ 24) ∷ l)) =
      AlignedLists-set c.state.freelists c.order ((c.offset % 2 ^ 24) ∷ l) at aligned
        (rw whole here, aligned c.order l at) in
    subst IsAligned (eq_of_some h1) new

pub give_block-IsAligned :
    (regions : List PhysmemRegion) (a a' : BuddyAllocator) (block_base order : ℕ)
    → IsBlock a block_base order
    → IsAligned a
    → give_block regions a block_base order ≡ some a'
    → IsAligned a'
unfolding give_block
give_block-IsAligned regions a a' block_base order (small, here, fits) aligned h =
    elim (Bool-cases (merges regions a block_base order)) [
      | inr single ↦
          let (b, made, h1) =
            >>=-eq-some (allocate_freelist_entry a off order) _ (rw (single, give_block) at h) in
          subst IsAligned (eq_of_some h1)
            (set_pair-IsAligned b index 1 (allocate-IsAligned a b off order fits here aligned made))
      | inl merging ↦
          let (b, popped, h1) =
            >>=-eq-some (pop_freelist_entry a buddy order) _ (rw (merging, give_block) at h) in
          let (c, coalesced, h2) = >>=-eq-some (coalesce (max_order + 1) regions (start b)) _ h1 in
          let kept = set_pair-IsAligned b index 0 (pop-IsAligned a b buddy order aligned popped) in
          let begin : BlockAligned (start b) = (kept, rw (add-one order) pair.0) in
          let carries = coalesce_lem (max_order + 1) regions (start b) c begin.1 coalesced in
          insert-IsAligned c a' (omega (arith, carries.below))
            (coalesce-BlockAligned (max_order + 1) regions (start b) c begin coalesced) h2
    ]
  where
    off : ℕ
    off = offset_of a block_base

    buddy : ℕ
    buddy = buddy_page_offset off order

    index : ℕ
    index = buddy_bmp_index_of off order

    pair : Buddies off buddy order
    pair = Buddies-buddy_page_offset off order small here

    start : BuddyAllocator → Coalesced
    start b = record {
      state = set_pair b index 0;
      offset = min off buddy;
      order = order + 1;
      bmp_index = index;
    }

-- The loop of `buddy_shrink_block` frees aligned blocks only.
pub shrink_loop-IsAligned :
    (k : ℕ) (s : ℕ) (a a' : BuddyAllocator) (off num left : ℕ)
    → s ≤ max_order
    → 0 < num
    → num ≤ 2 ^ s
    → off + 2 ^ s ≤ 2 ^ 24
    → off % 2 ^ s ≡ 0
    → IsAligned a
    → shrink_loop k a off num (u8 (s + 255)) ≡ some (left, a')
    → IsAligned a'
unfolding shrink_loop
shrink_loop-IsAligned zero s a a' off num left small pos size fits here aligned h = cc
shrink_loop-IsAligned (suc k) zero a a' off num left small pos size fits here aligned h =
    let hit : (num == int_bit (u8 (0 + 255) + 1)) ≡ true = ground arith in
    subst IsAligned (ap (λ (r : ℕ × BuddyAllocator). r.1) (eq_of_some (rw (hit, shrink_loop) at h)))
      aligned
shrink_loop-IsAligned (suc k) (suc t) a a' off num left small pos size fits here aligned h =
    elim (Bool-cases (num == int_bit (t + 1))) [
      | inl whole ↦
          subst IsAligned
            (ap (λ (r : ℕ × BuddyAllocator). r.1)
              (eq_of_some (rw (split, whole, shrink_loop) at h)))
            aligned
      | inr more ↦ elim (Bool-cases (ltb (2 ^ t) num)) [
        | inl above ↦
            shrink_loop-IsAligned k t (set_pair a index 0) a' (off + 2 ^ t) (num - 2 ^ t) left
              (omega arith) (ground arith) (omega (arith, double_pow t))
              (omega (arith, double_pow t)) halves.1 (set_pair-IsAligned a index 0 aligned)
              (rw (split, more, bit, above, shrink_loop) at h)
        | inr within ↦
            let h1 = rw (split, more, bit, within, shrink_loop) at h in
            let (b, made, h2) = >>=-eq-some (allocate_freelist_entry a (off + 2 ^ t) t) _ h1 in
            let fits' : off + 2 ^ t < 2 ^ 24 = omega (arith, double_pow t, one-le-pow t 2) in
            let kept = allocate-IsAligned a b (off + 2 ^ t) t fits' halves.1 aligned made in
            shrink_loop-IsAligned k t (set_pair b index 1) a' off num left (omega arith) pos
              (ground arith) (omega (arith, double_pow t)) halves.0
              (set_pair-IsAligned b index 1 kept) h2
      ]
    ]
  where
    split : u8 (suc t + 255) ≡ t
    split = omega arith

    index : ℕ
    index = buddy_bmp_index_of off t

    bit : int_bit t ≡ 2 ^ t
    bit = int_bit-small t (omega arith)

    halves : (off % 2 ^ t ≡ 0) × ((off + 2 ^ t) % 2 ^ t ≡ 0)
    halves = aligned_halves off t (omega arith) here
