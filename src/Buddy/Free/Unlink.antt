-- ===== src/Buddy/Free/Unlink.antt =====
-- `__pop_freelist_entry` of kernel/src/mm/buddy_alloc.c, and the coalescing loop that uses it.
use learning_os.Base.{
  ℕ, zero, suc, ◌+◌, ◌%◌, ◌^◌, ◌≤◌, ◌≡◌, refl, ◌∙◌, ap, some, List, [], ◌∷◌, get_elem?, set,
  length-set, arith, ◌>>=◌, >>=-eq-some, ltb, Bool-cases, inl, inr, ◌==◌,
}
use native.Mathlib.Numerals.{add-one}
use learning_os.Base.{eq_of_some}
use learning_os.Buddy.Index.{buddy_bmp_index_of, buddy_page_offset, max_order}
use learning_os.Buddy.Index.Buddies.{Buddies-buddy_page_offset}
use learning_os.Buddy.Pages.{covers, count, free_pages, free_pages-set, covers-Buddies}
use learning_os.Buddy.State.{BuddyAllocator, set_pair, release_freelist_entry}
use learning_os.Buddy.State.Frame.{SameFrame, SameFrame-trans}
use learning_os.BootMmap.{PhysmemRegion}
use learning_os.Buddy.Free.{
  unlink_entry, pop_freelist_entry, merge, can_coalesce, Coalesced, coalesce,
}

-- The entry that is unlinked takes its block out of the list.
count-unlink_entry :
    (order : ℕ) (entries rest : List ℕ) (p x : ℕ)
    → unlink_entry entries p ≡ some rest
    → count order entries x ≡ count order rest x + covers order p x
unfolding unlink_entry
count-unlink_entry order [] rest p x h = cc
count-unlink_entry order (e ∷ entries) rest p x h = elim (Bool-cases (e == p)) [
  | inl hit ↦ ground arith
  | inr miss ↦
      let step : (unlink_entry entries p >>= λ r. some (e ∷ r)) ≡ some rest =
        rw (miss, unlink_entry) at h in
      let (r, found, same) = >>=-eq-some (unlink_entry entries p) (λ r. some (e ∷ r)) step in
      ground (arith, count-unlink_entry order entries r p x found)
]

-- What popping an entry leaves.
pub pop_lem :
    (a a' : BuddyAllocator) (p order : ℕ)
    → pop_freelist_entry a p order ≡ some a'
    → SameFrame a a'
      × ((x : ℕ) → free_pages a'.freelists x + covers order p x ≡ free_pages a.freelists x)
unfolding pop_freelist_entry
pop_lem a a' p order h =
    let (l, at, h1) = >>=-eq-some (get_elem? a.freelists order) _ h in
    let (rest, found, h2) = >>=-eq-some (unlink_entry l p) _ h1 in
    let e : record a { freelists = set a.freelists order rest } ≡ a' = eq_of_some h2 in
    rw (← e) (
      record {
        lists = length-set a.freelists order rest;
        base = refl;
        end = refl;
        free_space = refl;
        allocated = refl;
        bitmap = refl;
      },
      λ x. omega (
        arith,
        free_pages-set order a.freelists l rest x at,
        count-unlink_entry order l rest p x found,
      ),
    )

-- The loop keeps the pages of the lists and of the block that it carries.
pub record Carries (c c' : Coalesced) : Type 0 where
  pub frame : SameFrame c.state c'.state
  pub pages :
      (x : ℕ)
      → free_pages c'.state.freelists x + covers c'.order c'.offset x
        ≡ free_pages c.state.freelists x + covers c.order c.offset x
  pub below : c'.offset ≤ c.offset

merged-SameFrame :
    (a a' : BuddyAllocator) (index : ℕ)
    → SameFrame a a'
    → SameFrame a (set_pair (release_freelist_entry a') index 0)
unfolding set_pair release_freelist_entry
merged-SameFrame a a' index h = record {
  lists = h.lists;
  base = h.base;
  end = h.end;
  free_space = h.free_space;
  allocated = h.allocated;
  bitmap = h.bitmap;
}

merged-freelists :
    (a : BuddyAllocator) (index : ℕ)
    → (set_pair (release_freelist_entry a) index 0).freelists ≡ a.freelists
unfolding set_pair release_freelist_entry
merged-freelists a index = refl

merge_lem :
    (c c' : Coalesced)
    → c.order ≤ max_order
    → c.offset % 2 ^ c.order ≡ 0
    → merge c ≡ some c'
    → Carries c c' × (c'.offset % 2 ^ c'.order ≡ 0)
unfolding merge
merge_lem c c' small aligned h =
    let buddy = buddy_page_offset c.offset c.order in
    let index = buddy_bmp_index_of c.offset c.order in
    let (a, popped, h1) = >>=-eq-some (pop_freelist_entry c.state buddy c.order) _ h in
    let (frame, pages) = pop_lem c.state a buddy c.order popped in
    let pair = Buddies-buddy_page_offset c.offset c.order small aligned in
    rw (← eq_of_some h1, add-one)
      (
        record {
          frame = merged-SameFrame c.state a index frame;
          pages = λ x. omega (
            arith,
            pages x,
            covers-Buddies c.order c.offset buddy x pair,
            ap (λ (ls : List (List ℕ)). free_pages ls x) (merged-freelists a index),
          );
          below = omega arith;
        },
        pair.0,
      )

Carries-refl : (c : Coalesced) (index : ℕ) → Carries c (record c { bmp_index = index })
Carries-refl c index = record {
  frame = record {
    lists = refl;
    base = refl;
    end = refl;
    free_space = refl;
    allocated = refl;
    bitmap = refl;
  };
  pages = λ x. refl;
  below = omega arith;
}

Carries-trans : {c d e : Coalesced} → Carries c d → Carries d e → Carries c e
Carries-trans h k = record {
  frame = SameFrame-trans h.frame k.frame;
  pages = λ x. k.pages x ∙ h.pages x;
  below = omega arith;
}

pub coalesce_lem :
    (k : ℕ) (regions : List PhysmemRegion) (c c' : Coalesced)
    → c.offset % 2 ^ c.order ≡ 0
    → coalesce k regions c ≡ some c'
    → Carries c c'
unfolding coalesce
coalesce_lem zero regions c c' aligned h = cc
coalesce_lem (suc k) regions c c' aligned h = elim (Bool-cases (ltb c.order max_order)) [
  | inr last ↦ rw (← eq_of_some (rw (last, coalesce) at h)) (Carries-refl c c.bmp_index)
  | inl below ↦ elim (Bool-cases (can_coalesce regions c.state c.offset c.order)) [
    | inr stop ↦
        rw (← eq_of_some (rw (below, stop, coalesce) at h))
          (Carries-refl c (buddy_bmp_index_of c.offset c.order))
    | inl go ↦
        let (d, merged, rest) =
          >>=-eq-some (merge c) (coalesce k regions) (rw (below, go, coalesce) at h) in
        let (carries, aligned') = merge_lem c d (ground arith) aligned merged in
        Carries-trans carries (coalesce_lem k regions d c' aligned' rest)
  ]
]
