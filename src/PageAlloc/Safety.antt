-- ===== src/PageAlloc/Safety.antt =====
-- kernel/src/mm/page_alloc.c: the free pages under every schedule of the processors.
use learning_os.Base.{ℕ, ◌≤◌, some, List, [], ◌∷◌, ◌≡◌, refl, arith, times, inl, inr}
use learning_os.PageAlloc.{FreePages, Job, free, start, System, run}
use learning_os.PageAlloc.Chain.{Chain}
use learning_os.PageAlloc.Invariant.{holds, Inv, Distinct, Given, Found, IsPlain-Fresh}
use learning_os.PageAlloc.Moves.{turn-Inv}

-- No processor frees a page that is on the list.
abbrev pub Off : (ℕ → Job) → List ℕ → Type 0
Off jobs first = (i p : ℕ) → jobs i ≡ free p → times p first ≡ 0

abbrev pub initial : FreePages → System
initial memory = record { memory = memory; pc = λ i. start }

module _ (jobs : ℕ → Job) (memory : FreePages) (first : List ℕ)
    (chain : Chain memory.pages memory.head first) (once : (p : ℕ) → times p first ≤ 1)
    (distinct : Distinct jobs) (off : Off jobs first) where
  initial-Inv : Inv jobs first first (initial memory)
  unfolding holds
  initial-Inv = record {
    chain = chain;
    once = once;
    listed = λ p lt k f. absurd (omega (arith, off k p f));
    fresh = λ i. IsPlain-Fresh jobs (initial memory) (jobs i) start tt;
    off = λ i p e. cc;
    apart = λ i j p e f. cc;
    kept = λ q g. elim g [ inl there ↦ inl there | inr (k, f, e) ↦ cc ];
  }

  run-Inv :
      (schedule : List ℕ)
      → (list : List ℕ) × Inv jobs first list (run jobs schedule (initial memory))
  unfolding run
  run-Inv [] = (first, initial-Inv)
  run-Inv (i ∷ schedule) =
      let s = run jobs schedule (initial memory) in
      let (list, inv) = run-Inv schedule in turn-Inv jobs first list s i (jobs i) distinct refl inv

  -- `pfa_alloc_page` and `_pfa_free_page` of any number of processors, in any order of their
  -- accesses, on a list of distinct pages that ends in NULL. No page is freed twice, and none that
  -- was on the list at first. Then the links always lead along distinct pages to NULL, no page
  -- that a processor has taken is among them, no page is taken by two, and a page that was on the
  -- list at first or that has been freed is on the list or taken.
  pub run_lem :
      (schedule : List ℕ)
      → let s = run jobs schedule (initial memory) in
        (list : List ℕ) × Chain s.memory.pages s.memory.head list
        × ((p : ℕ) → times p list ≤ 1)
        × ((i p : ℕ) → holds (s.pc i) ≡ some p → times p list ≡ 0)
        × ((i j p : ℕ) → holds (s.pc i) ≡ some p → holds (s.pc j) ≡ some p → i ≡ j)
        × ((p : ℕ) → Given jobs first s.pc p → Found list s.pc p)
  run_lem schedule =
      let (list, inv) = run-Inv schedule in
      (list, inv.chain, inv.once, inv.off, inv.apart, inv.kept)
