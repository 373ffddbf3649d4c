-- ===== src/Buddy/State/Frame.antt =====
-- What the steps of kernel/src/mm/buddy_alloc.c leave alone, and the pages that they move.
use learning_os.Base.{
  ℕ, zero, suc, ◌+◌, ◌-◌, ◌%◌, ◌^◌, ◌≤◌, ◌<◌, ◌≡◌, refl, ◌∙◌, some, List, [], ◌∷◌, get_elem?,
  length, length-set, get_elem?_lt, arith, >>=-eq-some,
}
use learning_os.Buddy.Pages.{covers, free_pages, free_pages-set}
use learning_os.Buddy.State.{BuddyAllocator, take_object, allocate_freelist_entry}
use native.Mathlib.Nat.{one-le-pow}

-- A free list for each order.
abbrev pub HasLists : BuddyAllocator → Type 0
HasLists a = length a.freelists ≡ 8

-- The pages that are free have numbers that the field of 24 bits can hold.
abbrev pub InField : BuddyAllocator → Type 0
InField a = (x : ℕ) → 0 < free_pages a.freelists x → x < 2 ^ 24

-- The fields that only the accounting of the operations changes.
pub record SameFrame (a a' : BuddyAllocator) : Type 0 where
  pub lists : length a'.freelists ≡ length a.freelists
  pub base : a'.base_addr ≡ a.base_addr
  pub end : a'.end_addr ≡ a.end_addr
  pub free_space : a'.free_space_bytes ≡ a.free_space_bytes
  pub allocated : a'.allocated_bytes ≡ a.allocated_bytes
  pub bitmap : a'.buddy_state_map ≡ a.buddy_state_map

pub SameFrame-trans : {a b c : BuddyAllocator} → SameFrame a b → SameFrame b c → SameFrame a c
SameFrame-trans h k = record {
  lists = k.lists ∙ h.lists;
  base = k.base ∙ h.base;
  end = k.end ∙ h.end;
  free_space = k.free_space ∙ h.free_space;
  allocated = k.allocated ∙ h.allocated;
  bitmap = k.bitmap ∙ h.bitmap;
}

-- A block at the head of a list lies below the bound of the field.
pub head-InField :
    (a : BuddyAllocator) (order p : ℕ) (rest : List ℕ)
    → InField a
    → get_elem? a.freelists order ≡ some (p ∷ rest)
    → p + 2 ^ order ≤ 2 ^ 24
head-InField a order p rest inside h =
    let last = p + 2 ^ order - 1 in
    let moved = free_pages-set order a.freelists (p ∷ rest) [] last h in
    ground (arith, one-le-pow order 2, moved, inside last)

-- There are at least `n` free entries, and fewer than the count can tell.
abbrev pub HasEntries : BuddyAllocator → ℕ → Type 0
HasEntries a n = (n ≤ a.total_free_objects) × (a.total_free_objects + 1 < 2 ^ 32)

pub take_object_lem : (n : ℕ) → 0 < n → (total : ℕ) × (take_object n ≡ some total) × (suc total ≡ n)
unfolding take_object
take_object_lem zero h = absurd (omega arith)
take_object_lem (suc n) h = (n, refl, refl)

took-positive : (n total : ℕ) → take_object n ≡ some total → 0 < n
unfolding take_object
took-positive zero total h = cc
took-positive (suc n) total h = omega arith

pub allocated-positive :
    (a b : BuddyAllocator) (off order : ℕ)
    → allocate_freelist_entry a off order ≡ some b
    → 0 < a.total_free_objects
unfolding allocate_freelist_entry
allocated-positive a b off order h =
    let (total, took, rest) = >>=-eq-some (take_object a.total_free_objects) _ h in
    took-positive a.total_free_objects total took

-- A new entry adds its block to the free pages.
pub allocate_lem :
    (a : BuddyAllocator) (off order : ℕ)
    → HasLists a
    → order ≤ 7
    → off < 2 ^ 24
    → 0 < a.total_free_objects
    → (a' : BuddyAllocator) × (allocate_freelist_entry a off order ≡ some a')
      × SameFrame a a'
      × (suc a'.total_free_objects ≡ a.total_free_objects)
      × ((x : ℕ) → free_pages a'.freelists x ≡ free_pages a.freelists x + covers order off x)
unfolding allocate_freelist_entry
allocate_lem a off order lists small fits stock =
    let (total, took, left) = take_object_lem a.total_free_objects stock in
    let (l, at) = get_elem?_lt a.freelists order (omega arith) in
    let whole : off % 2 ^ 24 ≡ off = omega arith in
    rw (took, at, whole)
      (
        _,
        refl,
        record {
          lists = length-set a.freelists order (off ∷ l);
          base = refl;
          end = refl;
          free_space = refl;
          allocated = refl;
          bitmap = refl;
        },
        left,
        λ x. omega (arith, free_pages-set order a.freelists l (off ∷ l) x at),
      )
