-- ===== src/Buddy/Alloc/Split.antt =====
-- Splitting a block in `__find_or_split_block` of kernel/src/mm/buddy_alloc.c.
use learning_os.Base.{
  ℕ, zero, suc, ◌+◌, ◌-◌, ◌^◌, ◌≤◌, ◌<◌, ◌≡◌, refl, ◌∙◌, ap, Option, none, some, List, [], ◌∷◌,
  get_elem?, set, length, length-set, get_elem?_lt, get_elem?_ge, arith, int_bit, ltb,
  if◌then◌else◌,
}
use learning_os.Base.Powers.{double_pow}
use learning_os.Buddy.Index.{buddy_bmp_index_of, max_order}
use learning_os.Buddy.Pages.{covers, free_pages, free_pages-set, covers-halves}
use learning_os.Buddy.State.{BuddyAllocator, toggle_pair}
use learning_os.Buddy.State.Frame.{HasLists, SameFrame, SameFrame-trans, allocate_lem}
use learning_os.Buddy.Alloc.{find_order, split_levels, split_block, find_or_split_block}
use native.Mathlib.Nat.{mod-eq_of_lt, one-le-pow}
use native.Mathlib.Decide.{dec_le, dec_lt}
use native.Mathlib.Numerals.{add-one}
use learning_os.Base.{sym, true, false}

pub toggle_pair-SameFrame : (a : BuddyAllocator) (i : ℕ) → SameFrame a (toggle_pair a i)
unfolding toggle_pair
toggle_pair-SameFrame a i = record {
  lists = refl;
  base = refl;
  end = refl;
  free_space = refl;
  allocated = refl;
  bitmap = refl;
}

pub toggle_pair-freelists : (a : BuddyAllocator) (i : ℕ) → (toggle_pair a i).freelists ≡ a.freelists
unfolding toggle_pair
toggle_pair-freelists a i = refl

pub toggle_pair-total :
    (a : BuddyAllocator) (i : ℕ) → (toggle_pair a i).total_free_objects ≡ a.total_free_objects
unfolding toggle_pair
toggle_pair-total a i = refl

-- What a step leaves behind: a state in which the pages have changed by `gain`.
record Adds (a : BuddyAllocator) (r : Option BuddyAllocator) (gain loss : ℕ → ℕ) (entries : ℕ)
    : Type 0 where
  pub state : BuddyAllocator
  pub returns : r ≡ some state
  pub frame : SameFrame a state
  pub stock : state.total_free_objects + entries ≡ a.total_free_objects
  pub pages : (x : ℕ) → free_pages state.freelists x + loss x ≡ free_pages a.freelists x + gain x

pub int_bit-small : (k : ℕ) → k ≤ 8 → int_bit k ≡ 2 ^ k
int_bit-small k h = ap (λ (t : ℕ). 2 ^ t) (mod-eq_of_lt (omega arith))

-- The levels below a block that was taken free all of the block but its lowest part.
split_levels_lem :
    (levels target p : ℕ) (a : BuddyAllocator)
    → HasLists a
    → target + levels ≤ max_order
    → p + 2 ^ suc (target + levels) ≤ 2 ^ 24
    → levels ≤ a.total_free_objects
    → Adds a
        (split_levels a p target levels)
        (covers (suc (target + levels)) p)
        (covers (suc target) p)
        levels
unfolding split_levels
split_levels_lem zero target p a lists small fits stock = record {
  state = a;
  returns = refl;
  frame = record {
    lists = refl;
    base = refl;
    end = refl;
    free_space = refl;
    allocated = refl;
    bitmap = refl;
  };
  stock = omega arith;
  pages = λ x. ap (λ (t : ℕ). free_pages a.freelists x + covers (suc t) p x) (omega arith);
}
split_levels_lem (suc levels) target p a lists small fits stock =
    let order = target + suc levels in
    let bit : int_bit order ≡ 2 ^ order = int_bit-small order (omega arith) in
    let (a1, made, frame1, used1, pages1) =
      allocate_lem a (p + 2 ^ order) order lists (omega arith)
        (omega (arith, double_pow order, one-le-pow order 2)) (omega arith) in
    let a2 = toggle_pair a1 (buddy_bmp_index_of p order) in
    let frame2 = SameFrame-trans frame1 (toggle_pair-SameFrame a1 (buddy_bmp_index_of p order)) in
    let below : suc (target + levels) ≡ order = omega arith in
    let rest =
      split_levels_lem levels target p a2 (frame2.lists ∙ lists) (omega arith)
        (rw below (omega (arith, double_pow order)))
        (omega (arith, used1, toggle_pair-total a1 (buddy_bmp_index_of p order))) in
    rw (bit, made)
      (record {
        state = rest.state;
        returns = rest.returns;
        frame = SameFrame-trans frame2 rest.frame;
        stock = omega (arith, rest.stock, used1, toggle_pair-total a1 (buddy_bmp_index_of p order));
        pages = λ x. omega (
          arith,
          rest.pages x,
          pages1 x,
          ap (λ (ls : List (List ℕ)). free_pages ls x)
              (toggle_pair-freelists a1 (buddy_bmp_index_of p order)),
          covers-halves order p x,
          ap (λ (t : ℕ). covers t p x) below,
        );
      })

-- The tail of the split gives out the upper half of the lowest pair, and frees the rest.
pub split_block_lem :
    (a : BuddyAllocator) (p order target : ℕ)
    → HasLists a
    → target < order
    → order ≤ max_order
    → p + 2 ^ order ≤ 2 ^ 24
    → order - 1 - target ≤ a.total_free_objects
    → (a' : BuddyAllocator) × (split_block a p order target ≡ some (p + 2 ^ target, a'))
      × SameFrame a a'
      × (a'.total_free_objects + (order - 1 - target) ≡ a.total_free_objects)
      × ((x : ℕ)
          → free_pages a'.freelists x + covers target (p + 2 ^ target) x
            ≡ free_pages a.freelists x + covers order p x)
unfolding split_block
split_block_lem a p order target lists above small fits stock =
    let levels = order - 1 - target in
    let top : suc (target + levels) ≡ order = omega arith in
    let bit : int_bit target ≡ 2 ^ target = int_bit-small target (omega arith) in
    let a1 = toggle_pair a (buddy_bmp_index_of p order) in
    let frame1 = toggle_pair-SameFrame a (buddy_bmp_index_of p order) in
    let s =
      split_levels_lem levels target p a1 (frame1.lists ∙ lists) (omega arith) (rw top fits)
        (omega (arith, toggle_pair-total a (buddy_bmp_index_of p order))) in
    let (l, at) =
      get_elem?_lt s.state.freelists target (omega (arith, s.frame.lists, frame1.lists)) in
    let a3 = record s.state { freelists = set s.state.freelists target (p ∷ l) } in
    let frame3 : SameFrame s.state a3 = record {
      lists = length-set s.state.freelists target (p ∷ l);
      base = refl;
      end = refl;
      free_space = refl;
      allocated = refl;
      bitmap = refl;
    } in
    rw (s.returns, at, bit)
      (
        _,
        refl,
        SameFrame-trans frame1 (
            SameFrame-trans s.frame
              (SameFrame-trans frame3 (toggle_pair-SameFrame a3 (buddy_bmp_index_of p target)))),
        omega (
          arith,
          s.stock,
          toggle_pair-total a (buddy_bmp_index_of p order),
          toggle_pair-total a3 (buddy_bmp_index_of p target),
        ),
        λ x. omega (
          arith,
          s.pages x,
          free_pages-set target s.state.freelists l (p ∷ l) x at,
          ap (λ (ls : List (List ℕ)). free_pages ls x)
              (toggle_pair-freelists a (buddy_bmp_index_of p order)),
          ap (λ (ls : List (List ℕ)). free_pages ls x)
              (toggle_pair-freelists a3 (buddy_bmp_index_of p target)),
          covers-halves target p x,
          ap (λ (t : ℕ). covers t p x) top,
        ),
      )

-- The search stops at the first order with a free block, or behind the last order.
pub data Search (lists : List (List ℕ)) (order : ℕ) (r : Option ℕ) : Type 0 where
  found :
      (o p : ℕ) (rest : List ℕ)
      → r ≡ some o
      → order ≤ o
      → o ≤ max_order
      → get_elem? lists o ≡ some (p ∷ rest)
      → Search lists order r
  exhausted :
      r ≡ some 8
      → ((i : ℕ) → order ≤ i → i ≤ max_order → get_elem? lists i ≡ some [])
      → Search lists order r

find_order-empty :
    (k : ℕ) (lists : List (List ℕ)) (order : ℕ)
    → get_elem? lists order ≡ some []
    → find_order (suc k) lists order
      ≡ (if ltb order max_order then find_order k lists (order + 1) else some (order + 1))
unfolding find_order
find_order-empty k lists order h = rw h

find_order-cons :
    (k : ℕ) (lists : List (List ℕ)) (order p : ℕ) (rest : List ℕ)
    → get_elem? lists order ≡ some (p ∷ rest)
    → find_order (suc k) lists order ≡ some order
unfolding find_order
find_order-cons k lists order p rest h = rw h

Search-step :
    (lists : List (List ℕ)) (order : ℕ) (r : Option ℕ)
    → get_elem? lists order ≡ some []
    → Search lists (suc order) r
    → Search lists order r
Search-step lists order r here (found o p rest e lo hi at) = found o p rest e (omega arith) hi at
Search-step lists order r here (exhausted e all) = exhausted e λ i lo hi. elim (dec_le i order) [
  | yes p ↦ let same : order ≡ i = omega arith in ap (get_elem? lists) (sym same) ∙ here
  | no p ↦ all i (omega arith) hi
]

find_order_at :
    (k : ℕ) (lists : List (List ℕ)) (order : ℕ) (l : List ℕ)
    → get_elem? lists order ≡ some l
    → order ≤ max_order
    → ((order < max_order) → Search lists (suc order) (find_order k lists (suc order)))
    → Search lists order (find_order (suc k) lists order)
find_order_at k lists order (p ∷ rest) at small next =
    found order p rest (find_order-cons k lists order p rest at) (omega arith) small at
find_order_at k lists order [] at small next =
    rw (find_order-empty k lists order at) (elim (dec_lt order max_order) [
      | yes below ↦
          let go : ltb order max_order ≡ true = ground arith in
          rw (go, add-one) (Search-step lists order _ at (next below))
      | no last ↦
          let stop : ltb order max_order ≡ false = ground arith in
          rw stop (
            exhausted (ap some (omega arith))
              λ i lo hi. let same : i ≡ order = omega arith in ap (get_elem? lists) same ∙ at)
    ])

-- Eight rounds are enough for the search, from any order.
pub find_order_lem :
    (k : ℕ) (lists : List (List ℕ)) (order : ℕ)
    → length lists ≡ 8
    → order ≤ max_order
    → max_order < order + k
    → Search lists order (find_order k lists order)
find_order_lem zero lists order eight small fuel = absurd (omega arith)
find_order_lem (suc k) lists order eight small fuel =
    let (l, at) = get_elem?_lt lists order (omega arith) in
    find_order_at k lists order l at small
      λ below. find_order_lem k lists (suc order) eight below (omega arith)

-- From the largest order the search starts past the end of `freelists`.
pub find_or_split-top : (a : BuddyAllocator) → HasLists a → find_or_split_block a max_order ≡ none
unfolding find_or_split_block find_order
find_or_split-top a lists = rw (get_elem?_ge a.freelists 8 (omega arith))
