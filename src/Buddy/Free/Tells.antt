-- ===== src/Buddy/Free/Tells.antt =====
-- What the bits of the pairs tell `buddy_free_block` of kernel/src/mm/buddy_alloc.c: whether the
-- buddies on the way up from a block have entries.
use learning_os.Base.{
  ℕ, zero, suc, ◌+◌, ◌-◌, ◌*◌, ◌/◌, ◌%◌, ◌^◌, ◌≤◌, ◌<◌, ◌≡◌, ◌≢◌, refl, ◌∙◌, Bool, true, false,
  some, List, [], ◌∷◌, get_elem?, get_elem?-set_ne, length-set, set, min, IsBytes, arith, ◌==◌,
  if◌then◌else◌, Bool-cases, inl, inr,
}
use learning_os.Bitmap.{bmp_get_bit}
use learning_os.Bitmap.Laws.{InRange, get_bit-set_bit, set_bit-IsBytes}
use learning_os.Buddy.Index.{max_order, buddy_bmp_index_of, buddy_page_offset}
use learning_os.Buddy.Index.Places.{index_iff}
use learning_os.Buddy.State.{BuddyAllocator, set_pair}
use learning_os.Buddy.State.Frame.{HasLists}
use learning_os.Buddy.Free.{unlink_entry, pop_freelist_entry}

-- The start of the aligned block of an order that a page lies in.
abbrev pub block_start : ℕ → ℕ → ℕ
block_start off order = off / 2 ^ order * 2 ^ order

abbrev pub has_entry : List ℕ → ℕ → Bool
has_entry [] page_offset = false
has_entry (entry ∷ entries) page_offset =
    if entry == page_offset then true else has_entry entries page_offset

abbrev pub Listed : BuddyAllocator → ℕ → ℕ → Type 0
Listed a order page_offset =
    (l : List ℕ) × (get_elem? a.freelists order ≡ some l) × (has_entry l page_offset ≡ true)

-- From `order` on, the pairs that the page `off` lies in have bits, and where a bit is on, the
-- buddy is on the list of its order.
pub record Tells (a : BuddyAllocator) (off order : ℕ) : Type 0 where
  pub lists : HasLists a
  pub bytes : IsBytes a.mem
  pub in_range :
      (k : ℕ) → order ≤ k → k < max_order → InRange a.buddy_state_map (buddy_bmp_index_of off k)
  pub free :
      (k : ℕ)
      → order ≤ k
      → k < max_order
      → bmp_get_bit a.mem a.buddy_state_map (buddy_bmp_index_of off k) ≡ 1
      → Listed a k (buddy_page_offset (block_start off k) k)

pub unlink_returns :
    (entries : List ℕ) (p : ℕ)
    → has_entry entries p ≡ true
    → (rest : List ℕ) × (unlink_entry entries p ≡ some rest)
unfolding unlink_entry
unlink_returns [] p h = absurd (ground arith)
unlink_returns (e ∷ entries) p h = elim (Bool-cases (e == p)) [
  | inl hit ↦ rw (hit, unlink_entry) (entries, refl)
  | inr miss ↦
      let (rest, found) = unlink_returns entries p (rw miss at h) in
      rw (miss, unlink_entry, found) (e ∷ rest, refl)
]

pub merged_start :
    (off k : ℕ)
    → k < max_order
    → min (block_start off k) (
        if block_start off k % 2 ^ suc k == 0
        then block_start off k + 2 ^ k
        else block_start off k - 2 ^ k)
      ≡ block_start off (suc k)
merged_start off zero h = ground arith
merged_start off (suc zero) h = ground arith
merged_start off (suc (suc zero)) h = ground arith
merged_start off (suc (suc (suc zero))) h = ground arith
merged_start off (suc (suc (suc (suc zero)))) h = ground arith
merged_start off (suc (suc (suc (suc (suc zero))))) h = ground arith
merged_start off (suc (suc (suc (suc (suc (suc zero)))))) h = ground arith
merged_start off (suc (suc (suc (suc (suc (suc (suc k))))))) h = absurd (omega arith)

pub same_block : (off k : ℕ) → k < max_order → block_start off k / 2 ^ suc k ≡ off / 2 ^ suc k
same_block off zero h = omega arith
same_block off (suc zero) h = omega arith
same_block off (suc (suc zero)) h = omega arith
same_block off (suc (suc (suc zero))) h = omega arith
same_block off (suc (suc (suc (suc zero)))) h = omega arith
same_block off (suc (suc (suc (suc (suc zero))))) h = omega arith
same_block off (suc (suc (suc (suc (suc (suc zero)))))) h = omega arith
same_block off (suc (suc (suc (suc (suc (suc (suc k))))))) h = absurd (omega arith)

pub index_start :
    (off k : ℕ)
    → k < max_order
    → buddy_bmp_index_of (block_start off k) k ≡ buddy_bmp_index_of off k
index_start off k h =
    (index_iff (block_start off k) off k k (omega arith) (omega arith)).1 (refl, same_block off k h)

-- The buddy whose bit is on can be popped, and the bits above keep telling.
pub pop_buddy :
    (a : BuddyAllocator) (off k : ℕ)
    → k < max_order
    → Tells a off k
    → bmp_get_bit a.mem a.buddy_state_map (buddy_bmp_index_of off k) ≡ 1
    → (b : BuddyAllocator) × (pop_freelist_entry a (buddy_page_offset (block_start off k) k) k
        ≡ some b)
      × Tells (set_pair b (buddy_bmp_index_of off k) 0) off (suc k)
unfolding pop_freelist_entry set_pair
pop_buddy a off k small t on =
    let p = buddy_page_offset (block_start off k) k in
    let index = buddy_bmp_index_of off k in
    let (l, at, has) = t.free k (omega arith) small on in
    let (rest, found) = unlink_returns l p has in
    rw (at, found)
      (
        record a { freelists = set a.freelists k rest },
        refl,
        record {
          lists = length-set a.freelists k rest ∙ t.lists;
          bytes = set_bit-IsBytes a.mem a.buddy_state_map t.bytes index 0;
          in_range = λ j above below. t.in_range j (omega arith) below;
          free = λ j above below bit.
              let other : index ≢ buddy_bmp_index_of off j = λ e.
                absurd
                  (omega (arith, ((index_iff off off k j (omega arith) (omega arith)).0 e).0)) in
              let (_, kept) =
                get_bit-set_bit a.mem a.buddy_state_map t.bytes index (buddy_bmp_index_of off j) 0
                  (t.in_range k (omega arith) small) (t.in_range j (omega arith) below) in
              let (l', at', has') = t.free j (omega arith) below (ground (arith, kept)) in
              (l', get_elem?-set_ne a.freelists k j rest (λ e. absurd (omega arith)) ∙ at', has');
        },
      )
