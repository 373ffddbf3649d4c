-- ===== src/Tests/Pages.antt =====
-- The theorems on kernel/src/mm/page.c, kernel/src/mm/page_alloc.c and kernel/include/cpu/atomic.h
-- at concrete schedules and page maps.
use learning_os.Base.{
  ℕ, ◌+◌, ◌-◌, ◌*◌, ◌%◌, ◌^◌, ◌≤◌, ◌≡◌, inl, inr, refl, none, some, List, [], ◌∷◌, ◌++◌, ◌==◌,
  if◌then◌else◌, times, arith,
}
use learning_os.Atomic.{
  Operation, increment, set_flags, initial, run, turn, advance, new_value, finished,
}
use learning_os.Atomic.Order.{Explains, run-Explains}
use learning_os.Atomic.Alone.{two_turns}
use learning_os.Page.{
  PageMap, GlobalPageMap, LinkerSymbols, cleared, put_info, reference_page, drop_page_reference,
  init_global_page_map, memory_end,
}
use learning_os.Page.References.{drop-reference}
use learning_os.Page.Flags.{Unusable, init-Unusable}
use learning_os.BootMmap.{MmapEntry}
use learning_os.PageAlloc
use learning_os.PageAlloc.{Job, FreePages, alloc, free, taken, fault, init_general_pages}
use learning_os.PageAlloc.Chain.{Chain}
use learning_os.PageAlloc.Invariant.{Given, Found, holds}
use learning_os.PageAlloc.Safety.{run_lem}
use learning_os.PageAlloc.General.{pages_from, init_general_lem}

-- Processor 0 adds 3 to the word, and the others set its lowest bit.
abbrev operations : ℕ → Operation
operations i = if i == 0 then increment 3 else set_flags 1

run-Explains_example :
    (order : List ℕ) × Explains operations 4 order
      (run operations (0 ∷ 0 ∷ 1 ∷ 1 ∷ 0 ∷ []) (initial 4))
run-Explains_example = run-Explains operations 4 (0 ∷ 0 ∷ 1 ∷ 1 ∷ 0 ∷ [])

-- The exchange of processor 0 fails once, since processor 1 was faster.
race_word : (run operations (0 ∷ 0 ∷ 1 ∷ 1 ∷ 0 ∷ []) (initial 4)).word ≡ 8
unfolding run turn advance new_value
race_word = refl

two_turns_example :
    (v : ℕ) × ((run operations (0 ∷ 0 ∷ 1 ∷ 1 ∷ 0 ∷ []) (initial 4)).pc 0 ≡ finished v)
two_turns_example = two_turns operations 4 (1 ∷ 1 ∷ 0 ∷ []) 0

-- The pages 1 and 2 are free.
abbrev two_pages : FreePages
two_pages = record {
  head = some 1;
  pages = λ i. record {
    flags = 0;
    refcount = 0;
    link = if i == 1 then some 2 else none;
    free_count = 0;
  };
}

-- Processor 2 frees page 7, and the others allocate.
abbrev jobs : ℕ → Job
jobs i = if i == 2 then free 7 else alloc

abbrev mixed : List ℕ
mixed = 1 ∷ 0 ∷ 2 ∷ 0 ∷ 2 ∷ 1 ∷ 2 ∷ 1 ∷ 0 ∷ 0 ∷ []

abbrev final : PageAlloc.System
final = PageAlloc.run jobs mixed (PageAlloc.Safety.initial two_pages)

run_example :
    (list : List ℕ) × Chain final.memory.pages final.memory.head list
    × ((p : ℕ) → times p list ≤ 1)
    × ((i p : ℕ) → holds (final.pc i) ≡ some p → times p list ≡ 0)
    × ((i j p : ℕ) → holds (final.pc i) ≡ some p → holds (final.pc j) ≡ some p → i ≡ j)
    × ((p : ℕ) → Given jobs (1 ∷ 2 ∷ []) final.pc p → Found list final.pc p)
unfolding times
run_example =
    run_lem jobs two_pages (1 ∷ 2 ∷ []) (refl, (refl, refl)) (λ p. ground arith)
      (λ i j p e f. ground arith) (λ i p e. ground arith) mixed

-- A page that is freed while a processor still holds on to its old link is given out twice:
-- processor 0 reads page 1 and its link 2, the processors 1 and 2 take both pages, 3 frees page 1,
-- 0 takes it and makes the page 2, which is in use, the head, and 4 takes page 2 again.
abbrev freed_early : ℕ → Job
freed_early i = if i == 3 then free 1 else alloc

aba_run : List ℕ
aba_run = 4 ∷ 4 ∷ 4 ∷ 4 ∷ 0 ∷ 0 ∷ 3 ∷ 3 ∷ 3 ∷ 2 ∷ 2 ∷ 2 ∷ 2 ∷ 1 ∷ 1 ∷ 1 ∷ 1 ∷ 0 ∷ 0 ∷ []

aba :
    ((PageAlloc.run freed_early aba_run (PageAlloc.Safety.initial two_pages)).pc 2 ≡ taken 2)
    × ((PageAlloc.run freed_early aba_run (PageAlloc.Safety.initial two_pages)).pc 4 ≡ taken 2)
unfolding PageAlloc.run aba_run PageAlloc.turn PageAlloc.job_turn PageAlloc.alloc_turn
    PageAlloc.pop_from PageAlloc.same_pointer PageAlloc.free_turn put_info
aba = (refl, refl)

-- Two processors want the last page: the exchange of the second fails and returns NULL, which it
-- goes on with.
abbrev one_page : FreePages
one_page = record { head = some 1; pages = λ i. cleared }

null_head :
    (PageAlloc.run (λ i. alloc) (0 ∷ 0 ∷ 1 ∷ 1 ∷ 1 ∷ 0 ∷ []) (PageAlloc.Safety.initial one_page)).pc
      0
    ≡ fault
unfolding PageAlloc.run PageAlloc.turn PageAlloc.job_turn PageAlloc.alloc_turn PageAlloc.pop_from
    PageAlloc.same_pointer
null_head = refl

abbrev no_pages : PageMap
no_pages i = cleared

init_general_example :
    Chain
      (init_general_pages (4100 * 4096) (4224 * 4096) no_pages).pages
      (init_general_pages (4100 * 4096) (4224 * 4096) no_pages).head
      (pages_from 1023 1 ++ pages_from (4224 - 4100) (4100 + 1))
init_general_example = init_general_lem no_pages 4100 4224 (omega arith) (omega arith) refl

-- Page 3 is referenced twice and lies in the block of page 2 of the buddy allocator.
abbrev block_pages : PageMap
block_pages i = record {
  flags = 8;
  refcount = if i == 3 then 2 else 1;
  link = some 2;
  free_count = 4;
}

drop-reference_example :
    (map' : PageMap) × (reference_page block_pages 3
      ≡ some (((block_pages 3).refcount + 1) % 2 ^ 16, map'))
    × (drop_page_reference map' 3 ≡ some ((block_pages 3).refcount, block_pages))
drop-reference_example = drop-reference block_pages 3 (omega arith) (omega arith)

abbrev symbols : LinkerSymbols
symbols = record {
  rodata_start = 0x1010000;
  rodata_end = 0x1012000;
  physical_start = 0x1000000;
  physical_end = 0x1020000;
}

abbrev memory_map : List MmapEntry
memory_map =
    record { addr = 0; len = 0x9F000; kind = 1 }
    ∷ record { addr = 0x9F000; len = 0x61000; kind = 2 }
    ∷ record { addr = 0x100000; len = 0x3F00000; kind = 1 }
    ∷ []

memory_end_here : memory_end none memory_map ≡ some 0x4000000
unfolding memory_end
memory_end_here = refl

init-Unusable_example :
    (m : GlobalPageMap) × (init_global_page_map symbols 64 memory_map ≡ some m)
    × Unusable m.pages 0xA0
init-Unusable_example =
    init-Unusable symbols 64 memory_map 0x4000000 0xA0 memory_end_here (omega arith)
      (inr (inr (inr (inl (omega arith, omega arith, omega arith, omega arith, omega arith)))))
