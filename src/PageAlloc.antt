-- ===== src/PageAlloc.antt =====
-- kernel/src/mm/page_alloc.c and kernel/include/mm/page_alloc.h: the list of free pages. Pages are
-- indices in the page map, as in Page. Processors allocate and free pages without a lock: each
-- takes turns in any order, and a turn is one access to the head of the list, to the link of a
-- page or to a counter.
pub mod Chain
pub mod Invariant
pub mod Moves
pub mod Safety
pub mod General
use learning_os.Base.{
  ℕ, zero, suc, ◌+◌, ◌-◌, ◌*◌, Option, none, some, List, [], ◌∷◌, bit_and, ◌==◌, ltb, if◌then◌else◌,
  Bool, true, false, u16, u64, not64, ◌>>>◌,
}
use learning_os.Math.{mask_for_first_n_bits}
use learning_os.BootMmap.{page_size, page_order}
use learning_os.Buddy.Index.{max_order}
use learning_os.Page.{
  PageInfo, PageMap, GlobalPageMap, put_info, or_flags, page_freelist, page_info,
}

abbrev pub dma_zone_begin : ℕ
dma_zone_begin = 0x400000

unfoldable pub set_link : PageMap → ℕ → Option ℕ → PageMap
unfolding put_info
set_link map page next_free = put_info map page (record (map page) { link = next_free })

-- The first loop of `__init_general_pages`, over `count` pages from `idx` on.
unfoldable pub link_general : ℕ → ℕ → PageMap → PageMap
link_general zero idx map = map
link_general (suc count) idx map =
    link_general count (idx + 1) (set_link (or_flags map idx page_freelist) idx (some (idx + 1)))

-- `if (first_pkpage == NULL) first_pkpage = kpage`
unfoldable pub first_of : Option ℕ → ℕ → ℕ
first_of none kpage = kpage
first_of (some page) kpage = page

-- The second loop, over the `count` pages at the addresses from `pk_page` on. With it goes the
-- first of these pages.
unfoldable pub link_behind_kernel : ℕ → ℕ → Option ℕ → PageMap → Option ℕ × PageMap
link_behind_kernel zero pk_page first_pkpage map = (first_pkpage, map)
link_behind_kernel (suc count) pk_page first_pkpage map =
    let kpage = page_info pk_page in
    let linked =
      set_link (or_flags map kpage page_freelist) kpage (some (page_info (pk_page + page_size))) in
    link_behind_kernel count (pk_page + page_size) (some (first_of first_pkpage kpage)) linked

-- `__freelist_head` and the page map
pub record FreePages : Type 0 where
  pub head : Option ℕ
  pub pages : PageMap

-- `for (a = from; a < to; a += PAGE_SIZE)` takes this many rounds.
abbrev pub rounds_between : ℕ → ℕ → ℕ
rounds_between from to = (to - from + page_size - 1) >>> page_order

unfoldable pub init_general_pages : ℕ → ℕ → PageMap → FreePages
init_general_pages last_kernel_page buddy_start map =
    let count = rounds_between page_size dma_zone_begin in
    let general = link_general count 1 map in
    let behind = last_kernel_page + page_size in
    let (first_pkpage, linked) =
      link_behind_kernel (rounds_between behind buddy_start) behind none general in
    record { head = some 1; pages = set_link linked count first_pkpage }

-- `page_alloc_init`. The start of the buddy allocator is rounded up to a block of `max_order`.
unfoldable pub page_alloc_init : GlobalPageMap → FreePages
page_alloc_init map =
    let mask = mask_for_first_n_bits (page_order + max_order) in
    let buddy_start = bit_and (u64 (map.last_kernel_page + page_size + mask)) (not64 mask) in
    init_general_pages map.last_kernel_page buddy_start map.pages

-- What a processor does: `pfa_alloc_page`, or `_pfa_free_page` of a page.
pub data Job : Type 0 where
  alloc : Job
  free : ℕ → Job

-- Where it stands. In `pfa_alloc_page`: in front of the first read of the head (`start`), of the
-- read of the link of `head` (`popping`), of the exchange of `head` for its next (`swapping`), of
-- the count of the reference (`won`), and behind it all (`taken`); with no free page (`empty`),
-- and behind a read through NULL (`fault`). In `_pfa_free_page`: in front of the write of the link
-- (`linking`), of the exchange (`pushing`), and behind it (`freed`).
pub data Pc : Type 0 where
  start : Pc
  popping : ℕ → Pc
  swapping : ℕ → Option ℕ → Pc
  won : ℕ → Pc
  taken : ℕ → Pc
  empty : Pc
  fault : Pc
  linking : Option ℕ → Pc
  pushing : Option ℕ → Pc
  freed : Pc

-- Two pointers to page infos are equal.
unfoldable pub same_pointer : Option ℕ → Option ℕ → Bool
same_pointer none none = true
same_pointer none (some q) = false
same_pointer (some p) none = false
same_pointer (some p) (some q) = p == q

-- A head that was read goes into the loop of `pfa_alloc_page`, and NULL where `null` says.
unfoldable pub pop_from : Pc → Option ℕ → Pc
pop_from null none = null
pop_from null (some page) = popping page

-- One turn of `pfa_alloc_page`. If the exchange fails, the loop goes on with the head that it
-- returned, and does not test it for NULL.
unfoldable pub alloc_turn : Pc → FreePages → Pc × FreePages
alloc_turn start m = (pop_from empty m.head, m)
alloc_turn (popping head) m = (swapping head (m.pages head).link, m)
alloc_turn (swapping head next_head) m =
    if same_pointer m.head (some head)
    then (won head, record { head = next_head; pages = m.pages })
    else (pop_from fault m.head, m)
alloc_turn (won page) m =
    let info = m.pages page in
    (
      taken page,
      record {
        head = m.head;
        pages = put_info m.pages page (record info { refcount = u16 (info.refcount + 1) });
      },
    )
alloc_turn pc m = (pc, m)

-- One turn of `_pfa_free_page`.
unfoldable pub free_turn : ℕ → Pc → FreePages → Pc × FreePages
free_turn new_head start m = (linking m.head, m)
free_turn new_head (linking current_head) m =
    (pushing current_head, record { head = m.head; pages = set_link m.pages new_head current_head })
free_turn new_head (pushing current_head) m =
    if same_pointer m.head current_head
    then (freed, record { head = some new_head; pages = m.pages })
    else (linking m.head, m)
free_turn new_head pc m = (pc, m)

unfoldable pub job_turn : Job → Pc → FreePages → Pc × FreePages
job_turn alloc pc m = alloc_turn pc m
job_turn (free page) pc m = free_turn page pc m

pub record System : Type 0 where
  pub memory : FreePages
  pub pc : ℕ → Pc

-- Processor `i` takes a turn.
unfoldable pub turn : (ℕ → Job) → ℕ → System → System
turn jobs i s =
    let (pc', memory') = job_turn (jobs i) (s.pc i) s.memory in
    record { memory = memory'; pc = λ j. if j == i then pc' else s.pc j }

-- The turns of a schedule, the latest one first.
unfoldable pub run : (ℕ → Job) → List ℕ → System → System
run jobs [] s = s
run jobs (i ∷ earlier) s = turn jobs i (run jobs earlier s)
