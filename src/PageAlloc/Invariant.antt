-- ===== src/PageAlloc/Invariant.antt =====
-- kernel/src/mm/page_alloc.c: what holds between the turns of the processors that allocate and
-- free pages, where no two of them free the same page and none frees a page of the first list.
use learning_os.Base.{
  ℕ, ◌≤◌, ◌<◌, Option, none, some, List, ◌==◌, if◌then◌else◌, ◌≡◌, ◌≢◌, refl, arith, times, ◌⊎◌,
  Bool-cases, inl, inr, ◌∙◌, subst, sym, ==_iff,
}
use learning_os.PageAlloc.{
  FreePages, Job, free, Pc, start, popping, swapping, won, taken, empty, fault, linking, pushing,
  freed, System,
}
use learning_os.PageAlloc.Chain.{Chain, Chain-keep}

-- The page that a processor has taken off the list, with its reference counted or not.
unfoldable pub holds : Pc → Option ℕ
holds (won page) = some page
holds (taken page) = some page
holds pc = none

-- No processor has still to free the page.
abbrev pub Published : (ℕ → Job) → (ℕ → Pc) → ℕ → Type 0
Published jobs pc page = (k : ℕ) → jobs k ≡ free page → pc k ≡ freed

-- What a processor has read and written is still so.
pub record Fresh (jobs : ℕ → Job) (s : System) (job : Job) (pc : Pc) : Type 0 where
  pub at_popping : (h : ℕ) → pc ≡ popping h → Published jobs s.pc h
  pub at_swapping : (h : ℕ) (n : Option ℕ) → pc ≡ swapping h n → Published jobs s.pc h
  pub next : (h : ℕ) (n : Option ℕ) → pc ≡ swapping h n → (s.memory.pages h).link ≡ n
  pub written : (p : ℕ) (c : Option ℕ) → job ≡ free p → pc ≡ pushing c → (s.memory.pages p).link ≡ c
  pub owner : (p : ℕ) → holds pc ≡ some p → Published jobs s.pc p

-- The page stood in the first list, or a processor has freed it.
abbrev pub Given : (ℕ → Job) → List ℕ → (ℕ → Pc) → ℕ → Type 0
Given jobs first pc q = (0 < times q first) ⊎ ((k : ℕ) × (jobs k ≡ free q) × (pc k ≡ freed))

-- The page stands in the list, or a processor has taken it.
abbrev pub Found : List ℕ → (ℕ → Pc) → ℕ → Type 0
Found list pc q = (0 < times q list) ⊎ ((k : ℕ) × (holds (pc k) ≡ some q))

pub record Inv (jobs : ℕ → Job) (first list : List ℕ) (s : System) : Type 0 where
  pub chain : Chain s.memory.pages s.memory.head list
  pub once : (p : ℕ) → times p list ≤ 1
  pub listed : (p : ℕ) → 0 < times p list → Published jobs s.pc p
  pub fresh : (i : ℕ) → Fresh jobs s (jobs i) (s.pc i)
  pub off : (i p : ℕ) → holds (s.pc i) ≡ some p → times p list ≡ 0
  pub apart : (i j p : ℕ) → holds (s.pc i) ≡ some p → holds (s.pc j) ≡ some p → i ≡ j
  pub kept : (q : ℕ) → Given jobs first s.pc q → Found list s.pc q

-- No page is freed twice.
abbrev pub Distinct : (ℕ → Job) → Type 0
Distinct jobs = (i j p : ℕ) → jobs i ≡ free p → jobs j ≡ free p → i ≡ j

abbrev pub moved : System → ℕ → Pc → FreePages → System
moved s i pc memory = record { memory = memory; pc = λ j. if j == i then pc else s.pc j }

module _ (jobs : ℕ → Job) (s : System) (i : ℕ) (pc' : Pc) (m : FreePages) where
  -- What a turn of processor `i` leaves alone.
  pub record Quiet : Type 0 where
    pub links_published :
        (q : ℕ) → Published jobs s.pc q → (m.pages q).link ≡ (s.memory.pages q).link
    pub links_others :
        (j q : ℕ) → jobs j ≡ free q → j ≢ i → (m.pages q).link ≡ (s.memory.pages q).link
    pub stays_freed : s.pc i ≡ freed → pc' ≡ freed

  pub moved-Published :
      (p : ℕ) → Quiet → Published jobs s.pc p → Published jobs (moved s i pc' m).pc p
  moved-Published p q h k f = ground (arith, h k f, q.stays_freed)

  moved-Fresh_other :
      (j : ℕ)
      → j ≢ i
      → Quiet
      → Fresh jobs s (jobs j) (s.pc j)
      → Fresh jobs (moved s i pc' m) (jobs j) (s.pc j)
  moved-Fresh_other j other q old = record {
    at_popping = λ h e. moved-Published h q (old.at_popping h e);
    at_swapping = λ h n e. moved-Published h q (old.at_swapping h n e);
    next = λ h n e. q.links_published h (old.at_swapping h n e) ∙ old.next h n e;
    written = λ p c f e. q.links_others j p f other ∙ old.written p c f e;
    owner = λ p e. moved-Published p q (old.owner p e);
  }

  pub moved-Fresh :
      Quiet
      → ((j : ℕ) → Fresh jobs s (jobs j) (s.pc j))
      → Fresh jobs (moved s i pc' m) (jobs i) pc'
      → (j : ℕ) → Fresh jobs (moved s i pc' m) (jobs j) ((moved s i pc' m).pc j)
  moved-Fresh q old new j = elim (Bool-cases (j == i)) [
    | inl same ↦ rw same (
        subst (λ (k : ℕ). Fresh jobs (moved s i pc' m) (jobs k) pc') (sym ((==_iff j i).0 same))
          new)
    | inr other ↦ rw other (moved-Fresh_other j (ground arith) q (old j))
  ]

  -- What stays where it was, unless processor `i` held it.
  moved-Found :
      (list : List ℕ) (x : ℕ)
      → holds pc' ≡ holds (s.pc i)
      → Found list s.pc x
      → Found list (moved s i pc' m).pc x
  moved-Found list x same (inl there) = inl there
  moved-Found list x same (inr (k, h)) = inr (k, ground (arith, same))

  pub moved-Given :
      (first : List ℕ) (x : ℕ)
      → (pc' ≡ freed → s.pc i ≡ freed)
      → Given jobs first (moved s i pc' m).pc x
      → Given jobs first s.pc x
  moved-Given first x was (inl there) = inl there
  moved-Given first x was (inr (k, f, e)) = inr (k, f, ground arith)

  -- A turn that leaves the head alone keeps the list.
  pub moved-Inv :
      (first list : List ℕ)
      → Inv jobs first list s
      → Quiet
      → m.head ≡ s.memory.head
      → holds pc' ≡ holds (s.pc i)
      → (pc' ≡ freed → s.pc i ≡ freed)
      → Fresh jobs (moved s i pc' m) (jobs i) pc'
      → Inv jobs first list (moved s i pc' m)
  moved-Inv first list inv q head same was new = record {
    chain = rw head (
        Chain-keep s.memory.pages m.pages s.memory.head list
          (λ p lt. q.links_published p (inv.listed p lt)) inv.chain);
    once = inv.once;
    listed = λ p lt. moved-Published p q (inv.listed p lt);
    fresh = moved-Fresh q inv.fresh new;
    off = λ j p e. ground (arith, inv.off j p, inv.off i p, same);
    apart = λ j k p e f. ground (arith, inv.apart j k p, inv.apart i k p, inv.apart j i p, same);
    kept = λ x g. moved-Found list x same (inv.kept x (moved-Given first x was g));
  }

-- Where a processor relies on nothing that it has read.
abbrev pub IsPlain : Pc → Type 0
IsPlain start = Unit
IsPlain empty = Unit
IsPlain fault = Unit
IsPlain freed = Unit
IsPlain (linking c) = Unit
IsPlain pc = ⊥

pub holds-IsPlain : (pc : Pc) → IsPlain pc → holds pc ≡ none
unfolding holds
holds-IsPlain (won p) h = absurd h
holds-IsPlain (taken p) h = absurd h
holds-IsPlain pc h = refl

pub IsPlain-Fresh :
    (jobs : ℕ → Job) (s : System) (job : Job) (pc : Pc) → IsPlain pc → Fresh jobs s job pc
IsPlain-Fresh jobs s job pc plain = record {
  at_popping = λ h e. absurd (subst IsPlain e plain);
  at_swapping = λ h n e. absurd (subst IsPlain e plain);
  next = λ h n e. absurd (subst IsPlain e plain);
  written = λ p c f e. absurd (subst IsPlain e plain);
  owner = λ p e. cc (holds-IsPlain pc plain);
}
