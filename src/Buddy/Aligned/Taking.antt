-- ===== src/Buddy/Aligned/Taking.antt =====
-- Taking blocks, by `buddy_alloc_block`, keeps the free blocks aligned and gives out aligned ones.
use learning_os.Base.{
  ℕ, zero, suc, ◌+◌, ◌-◌, ◌%◌, ◌^◌, ◌≤◌, ◌<◌, ◌≡◌, ◌≢◌, ap, sym, subst, none, some, List, [], ◌∷◌,
  get_elem?, get_elem?_lt, set, arith, >>=-eq-some, eq_of_some, int_bit, u8, ltb, false,
}
use learning_os.Base.Powers.{double_pow}
use learning_os.Buddy.Index.{page_offset_oob, max_order, buddy_bmp_index_of}
use learning_os.Buddy.State.{
  BuddyAllocator, allocate_freelist_entry, toggle_pair, release_freelist_entry,
}
use learning_os.Buddy.State.Frame.{HasLists, InField, head-InField}
use learning_os.Buddy.Alloc.{take_block, find_order, find_or_split_block, split_levels, split_block}
use learning_os.Buddy.Alloc.Split.{
  Search, found, exhausted, find_order_lem, find_or_split-top, int_bit-small,
}
use learning_os.Buddy.Aligned.{
  IsAligned, AlignedLists, AlignedLists-set, aligned_halves, allocate-IsAligned,
}
use native.Mathlib.Decide.{ℕ_discrete}
use native.Mathlib.Nat.{one-le-pow}

toggle_pair-IsAligned : (a : BuddyAllocator) (i : ℕ) → IsAligned a → IsAligned (toggle_pair a i)
unfolding toggle_pair
toggle_pair-IsAligned a i h = h

split_levels-IsAligned :
    (levels target p : ℕ) (a a' : BuddyAllocator)
    → target + levels ≤ max_order
    → p + 2 ^ suc (target + levels) ≤ 2 ^ 24
    → p % 2 ^ suc (target + levels) ≡ 0
    → IsAligned a
    → split_levels a p target levels ≡ some a'
    → IsAligned a' × (p % 2 ^ suc target ≡ 0)
unfolding split_levels
split_levels-IsAligned zero target p a a' small fits here aligned h =
    (rw (← eq_of_some h) aligned, subst (λ t. p % 2 ^ suc t ≡ 0) (omega arith) here)
split_levels-IsAligned (suc levels) target p a a' small fits here aligned h =
    let order = target + suc levels in
    let below : suc (target + levels) ≡ order = omega arith in
    let (b, made, h1) = >>=-eq-some (allocate_freelist_entry a (p + int_bit order) order) _ h in
    let bit : int_bit order ≡ 2 ^ order = int_bit-small order (omega arith) in
    let (low, high) = aligned_halves p order (omega arith) here in
    let made' : allocate_freelist_entry a (p + 2 ^ order) order ≡ some b = rw bit at made in
    let fits_high : p + 2 ^ order < 2 ^ 24 = omega (arith, double_pow order, one-le-pow order 2) in
    let aligned_b = allocate-IsAligned a b (p + 2 ^ order) order fits_high high aligned made' in
    split_levels-IsAligned levels target p (toggle_pair b (buddy_bmp_index_of p order)) a'
      (omega arith) (rw below (omega (arith, double_pow order))) (rw below low)
      (toggle_pair-IsAligned b (buddy_bmp_index_of p order) aligned_b) h1

pub split_block-IsAligned :
    (a a' : BuddyAllocator) (p order target off : ℕ)
    → target < order
    → order ≤ max_order
    → p + 2 ^ order ≤ 2 ^ 24
    → p % 2 ^ order ≡ 0
    → IsAligned a
    → split_block a p order target ≡ some (off, a')
    → IsAligned a' × (off % 2 ^ target ≡ 0)
unfolding split_block
split_block-IsAligned a a' p order target off above small fits here aligned h =
    let levels = order - 1 - target in
    let top : suc (target + levels) ≡ order = omega arith in
    let index = buddy_bmp_index_of p order in
    let (b, split, h1) = >>=-eq-some (split_levels (toggle_pair a index) p target levels) _ h in
    let (l, at, h2) = >>=-eq-some (get_elem? b.freelists target) _ h1 in
    let bit : int_bit target ≡ 2 ^ target = int_bit-small target (omega arith) in
    let (aligned_b, low) =
      split_levels-IsAligned levels target p (toggle_pair a index) b (omega arith) (rw top fits)
        (rw top here) (toggle_pair-IsAligned a index aligned) split in
    let (half, other) = aligned_halves p target (omega arith) low in
    let results = eq_of_some h2 in
    let new =
      AlignedLists-set b.freelists target (p ∷ l) at aligned_b (half, aligned_b target l at) in
    (
      subst IsAligned (ap (λ (r : ℕ × BuddyAllocator). r.1) results)
          (toggle_pair-IsAligned _ _ new),
      rw (← ap (λ (r : ℕ × BuddyAllocator). r.0) results, bit) other,
    )

find_or_split-IsAligned :
    (a a' : BuddyAllocator) (target off : ℕ)
    → HasLists a
    → InField a
    → target < max_order
    → IsAligned a
    → off ≢ page_offset_oob
    → find_or_split_block a target ≡ some (off, a')
    → IsAligned a' × (off % 2 ^ target ≡ 0)
unfolding find_or_split_block
find_or_split-IsAligned a a' target off lists inside small aligned block h =
    go (find_order_lem 8 a.freelists (suc target) lists small (omega arith))
  where
    order : u8 (target + 1) ≡ suc target
    order = omega arith

    go :
        Search a.freelists (suc target) (find_order 8 a.freelists (suc target))
        → IsAligned a' × (off % 2 ^ target ≡ 0)
    go (found o p rest e lo hi at) =
        let in_range : ltb max_order o ≡ false = ground arith in
        let h' : split_block (record a { freelists = set a.freelists o rest }) p o target
            ≡ some (off, a') =
          rw (find_or_split_block, order, e, in_range, at) at h in
        let (here, others) = aligned o (p ∷ rest) at in
        split_block-IsAligned (record a { freelists = set a.freelists o rest }) a' p o target off lo
          hi (head-InField a o p rest inside at) here
          (AlignedLists-set a.freelists o rest at aligned others) h'
    go (exhausted e all) = absurd (
        block (
          sym (
            ap (λ (r : ℕ × BuddyAllocator). r.0)
              (eq_of_some (rw (find_or_split_block, order, e) at h)))))

take_from_list :
    (a a' : BuddyAllocator) (order off : ℕ) (l : List ℕ)
    → HasLists a
    → InField a
    → order ≤ max_order
    → IsAligned a
    → off ≢ page_offset_oob
    → get_elem? a.freelists order ≡ some l
    → take_block a order ≡ some (off, a')
    → IsAligned a' × (off % 2 ^ order ≡ 0)
unfolding take_block toggle_pair release_freelist_entry
take_from_list a a' order off (p ∷ rest) lists inside small aligned block at h =
    let results = eq_of_some (rw (at, take_block) at h) in
    let (here, others) = aligned order (p ∷ rest) at in
    let new : AlignedLists (set a.freelists order rest) =
      AlignedLists-set a.freelists order rest at aligned others in
    (
      subst IsAligned (ap (λ (r : ℕ × BuddyAllocator). r.1) results) new,
      subst (λ o. o % 2 ^ order ≡ 0) (ap (λ (r : ℕ × BuddyAllocator). r.0) results) here,
    )
take_from_list a a' order off [] lists inside small aligned block at h =
    elim (ℕ_discrete order max_order) [
      | yes top ↦ absurd (none_above top)
      | no below ↦
          find_or_split-IsAligned a a' order off lists inside (omega arith) aligned block
            (rw (at, take_block) at h)
    ]
  where
    none_above : order ≡ max_order → ⊥
    none_above top =
        let none_here : find_or_split_block a order ≡ none = rw top (find_or_split-top a lists) in
        let h' : find_or_split_block a order ≡ some (off, a') = rw (at, take_block) at h in
        cc (none_here, h')

-- What `buddy_alloc_block` takes is aligned, and what it leaves free is too.
pub take_block-IsAligned :
    (a a' : BuddyAllocator) (order off : ℕ)
    → HasLists a
    → InField a
    → order ≤ max_order
    → IsAligned a
    → off ≢ page_offset_oob
    → take_block a order ≡ some (off, a')
    → IsAligned a' × (off % 2 ^ order ≡ 0)
take_block-IsAligned a a' order off lists inside small aligned block h =
    let (l, at) = get_elem?_lt a.freelists order (omega arith) in
    take_from_list a a' order off l lists inside small aligned block at h
