-- ===== src/Buddy/Shrink/Pages.antt =====
-- `buddy_shrink_block` of kernel/src/mm/buddy_alloc.c, by the pages that it moves.
use learning_os.Base.{
  ℕ, zero, suc, ◌+◌, ◌-◌, ◌^◌, ◌≤◌, ◌<◌, ◌≡◌, refl, ◌∙◌, ap, Option, some, List, arith, ltb, true,
  false, ◌==◌, u8, u64, sub64, ◌<<<◌, int_bit,
}
use learning_os.Base.Powers.{double_pow}
use learning_os.Math.Order.{pow-lt_inv}
use learning_os.Buddy.Index.{buddy_bmp_index_of, max_order}
use learning_os.Buddy.Pages.{covers, span, free_pages}
use learning_os.Buddy.State.{BuddyAllocator, set_pair, allocate_freelist_entry}
use learning_os.Buddy.State.Frame.{HasLists, SameFrame, SameFrame-trans, allocate_lem}
use learning_os.Buddy.Shrink.{shrink_loop, block_offset_of, buddy_shrink_block}
use native.Mathlib.Nat.{one-le-pow, mod-eq_of_lt}
use native.Mathlib.Decide.{ℕ_discrete, dec_lt}

-- The pages behind the first `num` of the block have become free; `left` is the number that the
-- loop ends on, a power of two.
pub record Shrunk (a : BuddyAllocator) (off num order : ℕ) (r : Option (ℕ × BuddyAllocator))
    : Type 0 where
  pub left : ℕ
  pub state : BuddyAllocator
  pub exponent : ℕ
  pub returns : r ≡ some (left, state)
  pub frame : SameFrame a state
  pub stock : a.total_free_objects ≤ state.total_free_objects + order
  pub pages :
      (x : ℕ)
      → free_pages state.freelists x
        ≡ free_pages a.freelists x + span (off + num) (2 ^ order - num) x
  pub power : left ≡ 2 ^ exponent
  pub at_most : left ≤ num
  pub exact : (e : ℕ) → num ≡ 2 ^ e → left ≡ num

set_pair-SameFrame : (a : BuddyAllocator) (i v : ℕ) → SameFrame a (set_pair a i v)
unfolding set_pair
set_pair-SameFrame a i v = record {
  lists = refl;
  base = refl;
  end = refl;
  free_space = refl;
  allocated = refl;
  bitmap = refl;
}

set_pair-freelists : (a : BuddyAllocator) (i v : ℕ) → (set_pair a i v).freelists ≡ a.freelists
unfolding set_pair
set_pair-freelists a i v = refl

set_pair-total :
    (a : BuddyAllocator) (i v : ℕ) → (set_pair a i v).total_free_objects ≡ a.total_free_objects
unfolding set_pair
set_pair-total a i v = refl

-- `split_order` is a byte, one less than the order `s` of the block that is left to split, and at
-- order 0 it is 255; the shift by `split_order + 1` gives the size of that block all the same.
pub split_bit : (s : ℕ) → s ≤ 8 → int_bit (u8 (s + 255) + 1) ≡ 2 ^ s
split_bit s h = ap (λ (t : ℕ). 2 ^ t) (omega arith)

pub done_at :
    (k : ℕ) (a : BuddyAllocator) (off s : ℕ)
    → s ≤ 8
    → shrink_loop (suc k) a off (2 ^ s) (u8 (s + 255)) ≡ some (2 ^ s, a)
unfolding shrink_loop
done_at k a off s small =
    let hit : (2 ^ s == int_bit (u8 (s + 255) + 1)) ≡ true = ground (arith, split_bit s small) in
    rw hit

Shrunk-done :
    (k : ℕ) (a : BuddyAllocator) (off num s : ℕ)
    → s ≤ 8
    → num ≡ 2 ^ s
    → Shrunk a off num s (shrink_loop (suc k) a off num (u8 (s + 255)))
Shrunk-done k a off num s small e = rw e (record {
  left = 2 ^ s;
  state = a;
  exponent = s;
  returns = done_at k a off s small;
  frame = record {
    lists = refl;
    base = refl;
    end = refl;
    free_space = refl;
    allocated = refl;
    bitmap = refl;
  };
  stock = omega arith;
  pages = λ x. ground arith;
  power = refl;
  at_most = omega arith;
  exact = λ f h. refl;
})

module _ (k : ℕ) (a : BuddyAllocator) (off num t : ℕ) (small : t < 8)
    (partial : num < 2 ^ suc t) where
  abbrev index : ℕ
  index = buddy_bmp_index_of off t

  split : u8 (suc t + 255) ≡ t
  split = omega arith

  bit : int_bit t ≡ 2 ^ t
  bit = ap (λ (e : ℕ). 2 ^ e) (mod-eq_of_lt (omega arith))

  more : (num == int_bit (t + 1)) ≡ false
  more =
      let size : int_bit (t + 1) ≡ 2 ^ suc t = ap (λ (e : ℕ). 2 ^ e) (omega arith) in ground arith

  go_right :
      2 ^ t < num
      → shrink_loop (suc k) a off num (u8 (suc t + 255))
        ≡ shrink_loop k (set_pair a index 0) (off + 2 ^ t) (num - 2 ^ t) (u8 (t + 255))
  unfolding shrink_loop
  go_right above = let right : ltb (2 ^ t) num ≡ true = ground arith in rw (split, more, bit, right)

  go_left :
      (b : BuddyAllocator)
      → num ≤ 2 ^ t
      → allocate_freelist_entry a (off + 2 ^ t) t ≡ some b
      → shrink_loop (suc k) a off num (u8 (suc t + 255))
        ≡ shrink_loop k (set_pair b index 1) off num (u8 (t + 255))
  unfolding shrink_loop
  go_left b within made =
      let left : ltb (2 ^ t) num ≡ false = ground arith in rw (split, more, bit, left, made)

  right_lem :
      2 ^ t < num
      → Shrunk
          (set_pair a index 0)
          (off + 2 ^ t)
          (num - 2 ^ t)
          t
          (shrink_loop k (set_pair a index 0) (off + 2 ^ t) (num - 2 ^ t) (u8 (t + 255)))
      → Shrunk a off num (suc t) (shrink_loop (suc k) a off num (u8 (suc t + 255)))
  right_lem above r = record {
    left = r.left;
    state = r.state;
    exponent = r.exponent;
    returns = go_right above ∙ r.returns;
    frame = SameFrame-trans (set_pair-SameFrame a index 0) r.frame;
    stock = omega (arith, r.stock, set_pair-total a index 0);
    pages = λ x. ground (
      arith,
      r.pages x,
      ap (λ (ls : List (List ℕ)). free_pages ls x) (set_pair-freelists a index 0),
      double_pow t,
    );
    power = r.power;
    at_most = omega (arith, r.at_most);
    exact = λ e same.
        let over : t < e = pow-lt_inv t e (omega arith) in
        let under : e < suc t = pow-lt_inv e (suc t) (omega arith) in absurd (omega arith);
  }

  left_lem :
      (b : BuddyAllocator)
      → num ≤ 2 ^ t
      → allocate_freelist_entry a (off + 2 ^ t) t ≡ some b
      → SameFrame a b
      → suc b.total_free_objects ≡ a.total_free_objects
      → ((x : ℕ) → free_pages b.freelists x ≡ free_pages a.freelists x + covers t (off + 2 ^ t) x)
      → Shrunk
          (set_pair b index 1)
          off
          num
          t
          (shrink_loop k (set_pair b index 1) off num (u8 (t + 255)))
      → Shrunk a off num (suc t) (shrink_loop (suc k) a off num (u8 (suc t + 255)))
  left_lem b within made frame used pages r = record {
    left = r.left;
    state = r.state;
    exponent = r.exponent;
    returns = go_left b within made ∙ r.returns;
    frame = SameFrame-trans frame (SameFrame-trans (set_pair-SameFrame b index 1) r.frame);
    stock = omega (arith, r.stock, used, set_pair-total b index 1);
    pages = λ x. ground (
      arith,
      r.pages x,
      pages x,
      ap (λ (ls : List (List ℕ)). free_pages ls x) (set_pair-freelists b index 1),
      double_pow t,
    );
    power = r.power;
    at_most = r.at_most;
    exact = r.exact;
  }

-- One round for each order is enough.
shrink_loop_lem :
    (s k : ℕ) (a : BuddyAllocator) (off num : ℕ)
    → HasLists a
    → s ≤ 8
    → s < k
    → 0 < num
    → num ≤ 2 ^ s
    → off + 2 ^ s ≤ 2 ^ 24
    → s ≤ a.total_free_objects
    → Shrunk a off num s (shrink_loop k a off num (u8 (s + 255)))
shrink_loop_lem s zero a off num lists small fuel pos size fits stock = absurd (omega arith)
shrink_loop_lem zero (suc k) a off num lists small fuel pos size fits stock =
    Shrunk-done k a off num zero small (omega arith)
shrink_loop_lem (suc t) (suc k) a off num lists small fuel pos size fits stock =
    elim (ℕ_discrete num (2 ^ suc t)) [
      | yes whole ↦ Shrunk-done k a off num (suc t) small whole
      | no part ↦
          let partial : num < 2 ^ suc t = omega arith in
          elim (dec_lt (2 ^ t) num) [
            | yes above ↦
                let index = buddy_bmp_index_of off t in
                let frame = set_pair-SameFrame a index 0 in
                right_lem k a off num t (omega arith) partial above (
                  shrink_loop_lem t k (set_pair a index 0) (off + 2 ^ t) (num - 2 ^ t)
                    (frame.lists ∙ lists) (omega arith) (omega arith) (omega arith)
                    (omega (arith, double_pow t)) (omega (arith, double_pow t))
                    (omega (arith, set_pair-total a index 0)))
            | no within ↦
                let index = buddy_bmp_index_of off t in
                let (b, made, frame, used, pages) =
                  allocate_lem a (off + 2 ^ t) t lists (omega arith)
                    (omega (arith, double_pow t, one-le-pow t 2)) (omega arith) in
                let frame' = SameFrame-trans frame (set_pair-SameFrame b index 1) in
                left_lem k a off num t (omega arith) partial b (omega arith) made frame used pages (
                  shrink_loop_lem t k (set_pair b index 1) off num (frame'.lists ∙ lists)
                    (omega arith) (omega arith) pos (omega arith) (omega (arith, double_pow t))
                    (omega (arith, used, set_pair-total b index 1)))
          ]
    ]

-- What the accounting of `buddy_shrink_block` adds to the free bytes: the block less the power of
-- two that its loop ends on.
abbrev pub bytes_freed : ℕ → ℕ → ℕ
bytes_freed order left = sub64 (1 <<< order) left <<< 12

pub shrink_block_lem :
    (a : BuddyAllocator) (block_base order num_pages : ℕ)
    → HasLists a
    → order ≤ max_order
    → 0 < num_pages
    → num_pages ≤ 2 ^ order
    → block_offset_of a block_base order + 2 ^ order ≤ 2 ^ 24
    → order ≤ a.total_free_objects
    → (a' : BuddyAllocator) × (left : ℕ) × (buddy_shrink_block a block_base order num_pages
        ≡ some a')
      × ((x : ℕ)
          → free_pages a'.freelists x
            ≡ free_pages a.freelists x
              + span (block_offset_of a block_base order + num_pages) (2 ^ order - num_pages) x)
      × (a'.free_space_bytes ≡ u64 (a.free_space_bytes + bytes_freed order left))
      × ((e : ℕ) × (left ≡ 2 ^ e))
      × (left ≤ num_pages)
      × ((e : ℕ) → num_pages ≡ 2 ^ e → left ≡ num_pages)
      × HasLists a'
      × (a'.base_addr ≡ a.base_addr)
      × (a.total_free_objects ≤ a'.total_free_objects + order)
unfolding buddy_shrink_block
shrink_block_lem a block_base order num_pages lists small pos size fits stock =
    let off = block_offset_of a block_base order in
    let r =
      shrink_loop_lem order 9 a off num_pages lists (omega arith) (omega arith) pos size fits
        stock in
    let frame = r.frame in
    rw (r.returns, frame.free_space, frame.allocated)
      (
        _,
        r.left,
        refl,
        r.pages,
        refl,
        (r.exponent, r.power),
        r.at_most,
        r.exact,
        frame.lists ∙ lists,
        frame.base,
        r.stock,
      )
