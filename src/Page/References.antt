-- ===== src/Page/References.antt =====
-- kernel/src/mm/page.c: the reference counts of the pages.
use mathlib.Core.Path.{fun_ext}
use learning_os.Base.{
  ℕ, ◌+◌, ◌^◌, ◌%◌, ◌<◌, Option, some, true, false, ◌==◌, ltb, if◌then◌else◌, ◌≡◌, refl, arith, ◌∙◌,
  bit_and, u16, ◌>>=◌, ap,
}
use learning_os.Atomic.{increment, new_value}
use learning_os.Atomic.Alone.{retry_loop_lem}
use learning_os.Page.{
  PageInfo, PageMap, put_info, page_buddy, reference_page, drop_page_reference, drop_block_page,
  increment_counter,
}

-- The counter without interference.
increment_counter_lem :
    (by counter : ℕ) → increment_counter by counter ≡ some (u16 (counter + by), u16 (counter + by))
unfolding new_value
increment_counter_lem by counter = retry_loop_lem 0 (increment by) counter counter

abbrev pub with_count : PageInfo → ℕ → PageInfo
with_count info count = record info { refcount = count }

-- A reference that is not the last one is dropped.
drop_alive :
    (map : PageMap) (page new_count : ℕ)
    → ((map page).refcount + 0xFFFF) % 2 ^ 16 ≡ new_count
    → 0 < new_count
    → drop_page_reference map page
      ≡ some (new_count, put_info map page (with_count (map page) new_count))
unfolding drop_page_reference
drop_alive map page new_count h alive =
    let not_last : (new_count == 0) ≡ false = ground arith in
    rw (increment_counter_lem 0xFFFF (map page).refcount, h, not_last) refl

put_info-twice :
    (map : PageMap) (page a b : ℕ)
    → b ≡ (map page).refcount
    → put_info
        (put_info map page (with_count (map page) a))
        page
        (with_count (put_info map page (with_count (map page) a) page) b)
      ≡ map
unfolding put_info
put_info-twice map page a b same = fun_ext (λ i. ground (arith, same))

-- `reference_page` of a page that has from 1 to 2^16 - 1 references, and `drop_page_reference`
-- behind it: the first returns the next count modulo 2^16, the second the old one, and every page
-- info is as before.
pub drop-reference :
    (map : PageMap) (page : ℕ)
    → 0 < (map page).refcount
    → (map page).refcount < 2 ^ 16
    → (map' : PageMap) × (reference_page map page ≡ some (((map page).refcount + 1) % 2 ^ 16, map'))
      × (drop_page_reference map' page ≡ some ((map page).refcount, map))
unfolding reference_page
drop-reference map page low high =
    let r = (map page).refcount in
    let map' = put_info map page (with_count (map page) ((r + 1) % 2 ^ 16)) in
    let count : (map' page).refcount ≡ (r + 1) % 2 ^ 16 = unfold put_info in ground arith in
    (
      map',
      rw (increment_counter_lem 1 r) refl,
      drop_alive map' page r (omega (arith, count)) low
          ∙ ap (λ (m : PageMap). some (r, m)) (put_info-twice map page _ r refl),
    )

block_page :
    (map : PageMap) (base : ℕ) (link : Option ℕ)
    → link ≡ some base
    → drop_block_page map link
      ≡ some (
          put_info map base
            (record (map base) { free_count = ((map base).free_count + 0xFFFF) % 2 ^ 16 }))
unfolding drop_block_page
block_page map base link h = rw h (rw (increment_counter_lem 0xFFFF (map base).free_count) refl)

-- `drop_page_reference` of the last reference to a page of a block of the buddy allocator: the
-- count of free pages of the block's base goes down by one modulo 2^16, the count of references
-- becomes 0, and nothing else changes.
pub drop_last_lem :
    (map : PageMap) (page base : ℕ)
    → (map page).refcount ≡ 1
    → (map page).link ≡ some base
    → 0 < bit_and (map page).flags page_buddy
    → (map' : PageMap) × (drop_page_reference map page ≡ some (0, map'))
      × ((i : ℕ) → (map' i).refcount ≡ (if i == page then 0 else (map i).refcount))
      × ((i : ℕ)
          → (map' i).free_count
            ≡ (if i == base then ((map i).free_count + 0xFFFF) % 2 ^ 16 else (map i).free_count))
      × ((i : ℕ) → ((map' i).flags ≡ (map i).flags) × ((map' i).link ≡ (map i).link))
unfolding drop_page_reference
drop_last_lem map page base count block flagged =
    let first = put_info map page (with_count (map page) 0) in
    let same : first page ≡ with_count (map page) 0 = unfold put_info in ground arith in
    let test : ltb 0 (bit_and (map page).flags page_buddy) ≡ true = ground arith in
    let last : increment_counter 0xFFFF (map page).refcount ≡ some (0, 0) =
      increment_counter_lem 0xFFFF _
      ∙ ap (λ (c : ℕ). some (u16 (c + 0xFFFF), u16 (c + 0xFFFF))) count in
    let rest = ((first base).free_count + 0xFFFF) % 2 ^ 16 in
    (
      put_info first base (record (first base) { free_count = rest }),
      rw (last, same, test)
          (ap (λ (o : Option PageMap). o >>= λ (m : PageMap). some (0, m))
            (block_page first base _ block)),
      λ i. unfold put_info in ground arith,
      λ i. unfold put_info in ground arith,
      λ i. (unfold put_info in ground arith, unfold put_info in ground arith),
    )
