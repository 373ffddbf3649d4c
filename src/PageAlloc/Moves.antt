-- ===== src/PageAlloc/Moves.antt =====
-- kernel/src/mm/page_alloc.c: each turn of a processor keeps the invariant.
use learning_os.Base.{
  ℕ, ◌<◌, Option, none, some, List, [], ◌∷◌, ◌==◌, if◌then◌else◌, ◌≡◌, ◌≢◌, refl, arith, times, ap,
  Bool-cases, inl, inr, ◌∙◌, subst, sym, ==_iff, true,
}
use mathlib.Core.Path.{fun_ext}
use learning_os.Page.{PageInfo, PageMap, put_info}
use learning_os.PageAlloc.{
  FreePages, Job, alloc, free, Pc, start, popping, swapping, won, taken, empty, fault, linking,
  pushing, freed, System, pop_from, alloc_turn, free_turn, job_turn, turn, set_link, same_pointer,
}
use learning_os.PageAlloc.Chain.{Chain}
use learning_os.PageAlloc.Invariant.{
  holds, Published, Fresh, Inv, Given, Found, moved-Given, Distinct, moved, Quiet, moved-Published,
  moved-Fresh, moved-Inv, IsPlain, holds-IsPlain, IsPlain-Fresh,
}

same_pointer-eq : (a b : Option ℕ) → same_pointer a b ≡ true → a ≡ b
unfolding same_pointer
same_pointer-eq none none h = refl
same_pointer-eq none (some q) h = cc
same_pointer-eq (some p) none h = cc
same_pointer-eq (some p) (some q) h = ap some ((==_iff p q).0 h)

popping-inj : {p h : ℕ} → popping p ≡ popping h → p ≡ h
popping-inj e = cc

swapping-inj : {p h : ℕ} {c n : Option ℕ} → swapping p c ≡ swapping h n → (p ≡ h) × (c ≡ n)
swapping-inj e = (cc, cc)

some-inj : {p h : ℕ} → some p ≡ some h → p ≡ h
some-inj e = cc

-- The head of a chain stands in its list.
head-listed :
    (map : PageMap) (head : Option ℕ) (page : ℕ) (list : List ℕ)
    → head ≡ some page
    → Chain map head list
    → 0 < times page list
unfolding times
head-listed map head page [] at h = cc
head-listed map head page (p ∷ list) at h = ground arith

-- Where the pages stand when one of them is taken off the list.
won-Found :
    (list : List ℕ) (pc : ℕ → Pc) (i p page x : ℕ)
    → p ≡ page
    → holds (pc i) ≡ none
    → Found (p ∷ list) pc x
    → Found list (λ j. if j == i then won page else pc j) x
unfolding times holds
won-Found list pc i p page x same none_held (inr (k, h)) = inr (k, ground (arith, none_held))
won-Found list pc i p page x same none_held (inl lt) = elim (Bool-cases (x == p)) [
  | inl hit ↦ inr (i, ground (arith, same))
  | inr miss ↦ inl (ground arith)
]

-- The same, when a page is put on the list.
freed-Found :
    (list : List ℕ) (pc : ℕ → Pc) (i page x : ℕ)
    → holds (pc i) ≡ none
    → Found list pc x
    → Found (page ∷ list) (λ j. if j == i then freed else pc j) x
unfolding times holds
freed-Found list pc i page x none_held (inl lt) = inl (ground arith)
freed-Found list pc i page x none_held (inr (k, h)) = inr (k, ground arith)

freed-kept :
    (first list : List ℕ) (pc : ℕ → Pc) (jobs : ℕ → Job) (i page x : ℕ)
    → jobs i ≡ free page
    → holds (pc i) ≡ none
    → (Given jobs first pc x → Found list pc x)
    → Given jobs first (λ j. if j == i then freed else pc j) x
    → Found (page ∷ list) (λ j. if j == i then freed else pc j) x
unfolding times
freed-kept first list pc jobs i page x job none_held kept (inl there) =
    freed-Found list pc i page x none_held (kept (inl there))
freed-kept first list pc jobs i page x job none_held kept (inr (k, f, e)) =
    elim (Bool-cases (k == i)) [
      | inl same ↦ inl (ground (arith, job))
      | inr other ↦
          freed-Found list pc i page x none_held (kept (inr (k, f, ground (arith, other))))
    ]

module _ (jobs : ℕ → Job) (first list : List ℕ) (s : System) (i : ℕ)
    (inv : Inv jobs first list s) where
  memory_same : (pc' : Pc) → (s.pc i ≡ freed → pc' ≡ freed) → Quiet jobs s i pc' s.memory
  memory_same pc' stays = record {
    links_published = λ q h. refl;
    links_others = λ j q f n. refl;
    stays_freed = stays;
  }

  -- A turn to where the processor relies on nothing.
  plain-Inv :
      (pc' : Pc)
      → IsPlain pc'
      → pc' ≢ freed
      → holds (s.pc i) ≡ none
      → (s.pc i ≡ freed → pc' ≡ freed)
      → Inv jobs first list (moved s i pc' s.memory)
  plain-Inv pc' plain still none_held stays =
      moved-Inv jobs s i pc' s.memory first list inv (memory_same pc' stays) refl
        (holds-IsPlain pc' plain ∙ sym none_held) (λ f. absurd (still f))
        (IsPlain-Fresh jobs (moved s i pc' s.memory) (jobs i) pc' plain)

  popping-Inv :
      (page : ℕ)
      → s.memory.head ≡ some page
      → holds (s.pc i) ≡ none
      → s.pc i ≢ freed
      → Inv jobs first list (moved s i (popping page) s.memory)
  unfolding holds
  popping-Inv page at none_held on =
      let q = memory_same (popping page) (λ f. absurd (on f)) in
      let shown =
        inv.listed page (head-listed s.memory.pages s.memory.head page list at inv.chain) in
      moved-Inv jobs s i (popping page) s.memory first list inv q refl (sym none_held) (λ f. cc)
        (record {
          at_popping = λ h e.
              subst (Published jobs (moved s i (popping page) s.memory).pc) (popping-inj e)
                (moved-Published jobs s i (popping page) s.memory page q shown);
          at_swapping = λ h n e. cc;
          next = λ h n e. cc;
          written = λ p c f e. cc;
          owner = λ p e. cc;
        })

  swapping-Inv :
      (page : ℕ)
      → s.pc i ≡ popping page
      → Inv jobs first list (moved s i (swapping page (s.memory.pages page).link) s.memory)
  unfolding holds
  swapping-Inv page at =
      let pc' = swapping page (s.memory.pages page).link in
      let q = memory_same pc' (λ f. cc) in
      let shown = (inv.fresh i).at_popping page at in
      let kept = moved-Published jobs s i pc' s.memory page q shown in
      moved-Inv jobs s i pc' s.memory first list inv q refl (rw at refl) (λ f. cc)
        (record {
          at_popping = λ h e. cc;
          at_swapping =
              λ h n e. subst (Published jobs (moved s i pc' s.memory).pc) (swapping-inj e).0 kept;
          next = λ h n e. rw (← (swapping-inj e).0) (swapping-inj e).1;
          written = λ p c f e. cc;
          owner = λ p e. cc;
        })

  -- The reference of the page is counted.
  taken-Inv :
      (page : ℕ) (info : PageInfo)
      → s.pc i ≡ won page
      → info.link ≡ (s.memory.pages page).link
      → Inv jobs first list (
          moved s i
            (taken page)
            (record { head = s.memory.head; pages = put_info s.memory.pages page info }))
  unfolding holds put_info
  taken-Inv page info at same =
      let m : FreePages = record {
        head = s.memory.head;
        pages = put_info s.memory.pages page info;
      } in
      let q : Quiet jobs s i (taken page) m = record {
        links_published = λ p h. ground (arith, same);
        links_others = λ j p f n. ground (arith, same);
        stays_freed = λ f. cc;
      } in
      let shown = (inv.fresh i).owner page (rw at refl) in
      let kept = moved-Published jobs s i (taken page) m page q shown in
      moved-Inv jobs s i (taken page) m first list inv q refl (rw at refl) (λ f. cc)
        (record {
          at_popping = λ h e. cc;
          at_swapping = λ h n e. cc;
          next = λ h n e. cc;
          written = λ p c f e. cc;
          owner = λ p e. subst (Published jobs (moved s i (taken page) m).pc) (some-inj e) kept;
        })

  -- The link of the page that is freed is written.
  pushing-Inv :
      (page : ℕ) (c : Option ℕ)
      → Distinct jobs
      → jobs i ≡ free page
      → s.pc i ≡ linking c
      → Inv jobs first list (
          moved s i
            (pushing c)
            (record { head = s.memory.head; pages = set_link s.memory.pages page c }))
  unfolding holds set_link
  pushing-Inv page c distinct job at =
      let m : FreePages = record { head = s.memory.head; pages = set_link s.memory.pages page c } in
      let q : Quiet jobs s i (pushing c) m = record {
        links_published = λ p h. ground (arith, h i, at, job);
        links_others = λ j p f n. ground (arith, distinct i j p);
        stays_freed = λ f. cc;
      } in
      moved-Inv jobs s i (pushing c) m first list inv q refl (rw at refl) (λ f. cc)
        (record {
          at_popping = λ h e. cc;
          at_swapping = λ h n e. cc;
          next = λ h n e. cc;
          written = λ p d f e. ground (arith, distinct i i p);
          owner = λ p e. cc;
        })

  -- The exchange of `_pfa_free_page` puts the page in front of the list.
  freed-Inv :
      (page : ℕ) (c : Option ℕ)
      → Distinct jobs
      → jobs i ≡ free page
      → s.pc i ≡ pushing c
      → s.memory.head ≡ c
      → Inv jobs first
          (page ∷ list)
          (moved s i freed (record { head = some page; pages = s.memory.pages }))
  unfolding times holds
  freed-Inv page c distinct job at head =
      let m : FreePages = record { head = some page; pages = s.memory.pages } in
      let q : Quiet jobs s i freed m = record {
        links_published = λ p h. refl;
        links_others = λ j p f n. refl;
        stays_freed = λ f. refl;
      } in
      let new = IsPlain-Fresh jobs (moved s i freed m) (jobs i) freed tt in
      let hidden : times page list ≡ 0 =
        ground (arith, inv.listed page, at, inv.listed page _ i job) in
      record {
        chain = (refl, rw ((inv.fresh i).written page c job at, ← head) inv.chain);
        once = λ p. ground (arith, inv.once p, hidden);
        listed = λ p lt k f. ground (arith, inv.listed p _ k f, distinct k i page, job);
        fresh = moved-Fresh jobs s i freed m q inv.fresh new;
        off = λ j p e. ground (arith, inv.off j p, at, (inv.fresh j).owner page _ i job);
        apart = λ j k p e f. ground (arith, inv.apart j k p);
        kept = λ x g. freed-kept first list s.pc jobs i page x job (rw at refl) (inv.kept x) g;
      }

-- The exchange of `pfa_alloc_page` takes the first page off the list.
won-Inv :
    (jobs : ℕ → Job) (first list : List ℕ) (s : System) (i page : ℕ) (n : Option ℕ)
    → Inv jobs first list s
    → s.pc i ≡ swapping page n
    → s.memory.head ≡ some page
    → (list' : List ℕ) × Inv jobs first list'
        (moved s i (won page) (record { head = n; pages = s.memory.pages }))
unfolding times holds
won-Inv jobs first [] s i page n inv at head = absurd (cc (inv.chain, head))
won-Inv jobs first (p ∷ list) s i page n inv at head =
    let m : FreePages = record { head = n; pages = s.memory.pages } in
    let q : Quiet jobs s i (won page) m = record {
      links_published = λ p h. refl;
      links_others = λ j p f n. refl;
      stays_freed = λ f. cc;
    } in
    let same : p ≡ page = ground (arith, inv.chain.0, head) in
    let shown = (inv.fresh i).at_swapping page n at in
    let kept = moved-Published jobs s i (won page) m page q shown in
    let new : Fresh jobs (moved s i (won page) m) (jobs i) (won page) = record {
      at_popping = λ h e. cc;
      at_swapping = λ h n e. cc;
      next = λ h n e. cc;
      written = λ p c f e. cc;
      owner = λ p e. subst (Published jobs (moved s i (won page) m).pc) (some-inj e) kept;
    } in
    (
      list,
      record {
        chain = rw (← (inv.fresh i).next page n at, ← same) inv.chain.1;
        once = λ p. ground (arith, inv.once p);
        listed = λ x lt. moved-Published jobs s i (won page) m x q (inv.listed x (ground arith));
        fresh = moved-Fresh jobs s i (won page) m q inv.fresh new;
        off = λ j x e. ground (arith, inv.off j x, inv.once page, same);
        apart = λ j k x e f. ground (arith, inv.apart j k x, inv.off j x, inv.off k x, same);
        kept = λ x g.
            won-Found list s.pc i p page x same (rw at refl)
              (inv.kept x (moved-Given jobs s i (won page) m first x (λ f. cc) g));
      },
    )

-- A turn that changes nothing.
idle-Inv :
    (jobs : ℕ → Job) (first list : List ℕ) (s : System) (i : ℕ) (pc : Pc)
    → Inv jobs first list s
    → s.pc i ≡ pc
    → Inv jobs first list (moved s i pc s.memory)
idle-Inv jobs first list s i pc inv at =
    let same : (λ (j : ℕ). if j == i then pc else s.pc j) ≡ s.pc =
      fun_ext (λ j. ground (arith, at)) in
    subst (λ (f : ℕ → Pc). Inv jobs first list (record { memory = s.memory; pc = f })) (sym same)
      inv

-- The head is read, in front of the loop or by an exchange that failed.
reread-Inv :
    (jobs : ℕ → Job) (first list : List ℕ) (s : System) (i : ℕ) (null : Pc) (head : Option ℕ)
    → Inv jobs first list s
    → IsPlain null
    → null ≢ freed
    → holds (s.pc i) ≡ none
    → s.pc i ≢ freed
    → s.memory.head ≡ head
    → Inv jobs first list (moved s i (pop_from null head) s.memory)
unfolding pop_from
reread-Inv jobs first list s i null none inv plain still none_held on at =
    plain-Inv jobs first list s i inv null plain still none_held (λ f. absurd (on f))
reread-Inv jobs first list s i null (some page) inv plain still none_held on at =
    popping-Inv jobs first list s i inv page at none_held on

-- A turn of a processor that allocates.
alloc_turn-Inv :
    (jobs : ℕ → Job) (first list : List ℕ) (s : System) (i : ℕ) (pc : Pc)
    → Inv jobs first list s
    → s.pc i ≡ pc
    → (list' : List ℕ) × Inv jobs first list'
        (moved s i (alloc_turn pc s.memory).0 (alloc_turn pc s.memory).1)
unfolding alloc_turn holds
alloc_turn-Inv jobs first list s i start inv at = (
  list,
  reread-Inv jobs first list s i empty s.memory.head inv tt (λ f. cc) (rw at refl) (λ f. cc) refl,
)
alloc_turn-Inv jobs first list s i (popping page) inv at =
    (list, swapping-Inv jobs first list s i inv page at)
alloc_turn-Inv jobs first list s i (swapping page n) inv at =
    elim (Bool-cases (same_pointer s.memory.head (some page))) [
      | inl hit ↦
          let head = same_pointer-eq s.memory.head (some page) hit in
          rw hit (won-Inv jobs first list s i page n inv at head)
      | inr miss ↦ rw miss (
        list,
        reread-Inv jobs first list s i fault s.memory.head inv tt (λ f. cc) (rw at refl) (λ f. cc)
            refl,
      )
    ]
alloc_turn-Inv jobs first list s i (won page) inv at =
    (list, taken-Inv jobs first list s i inv page _ at refl)
alloc_turn-Inv jobs first list s i pc inv at = (list, idle-Inv jobs first list s i pc inv at)

-- A turn of a processor that frees a page.
free_turn-Inv :
    (jobs : ℕ → Job) (first list : List ℕ) (s : System) (i page : ℕ) (pc : Pc)
    → Distinct jobs
    → jobs i ≡ free page
    → Inv jobs first list s
    → s.pc i ≡ pc
    → (list' : List ℕ) × Inv jobs first list'
        (moved s i (free_turn page pc s.memory).0 (free_turn page pc s.memory).1)
unfolding free_turn holds
free_turn-Inv jobs first list s i page start d job inv at = (
  list,
  plain-Inv jobs first list s i inv (linking s.memory.head) tt (λ f. cc) (rw at refl)
      (λ f. absurd (cc (at, f))),
)
free_turn-Inv jobs first list s i page (linking c) d job inv at =
    (list, pushing-Inv jobs first list s i inv page c d job at)
free_turn-Inv jobs first list s i page (pushing c) d job inv at =
    elim (Bool-cases (same_pointer s.memory.head c)) [
      | inl hit ↦
          let head = same_pointer-eq s.memory.head c hit in
          rw hit (page ∷ list, freed-Inv jobs first list s i inv page c d job at head)
      | inr miss ↦ rw miss (
        list,
        plain-Inv jobs first list s i inv (linking s.memory.head) tt (λ f. cc) (rw at refl)
            (λ f. absurd (cc (at, f))),
      )
    ]
free_turn-Inv jobs first list s i page pc d job inv at =
    (list, idle-Inv jobs first list s i pc inv at)

pub turn-Inv :
    (jobs : ℕ → Job) (first list : List ℕ) (s : System) (i : ℕ) (job : Job)
    → Distinct jobs
    → jobs i ≡ job
    → Inv jobs first list s
    → (list' : List ℕ) × Inv jobs first list' (turn jobs i s)
unfolding turn job_turn
turn-Inv jobs first list s i alloc d e inv =
    rw e (alloc_turn-Inv jobs first list s i (s.pc i) inv refl)
turn-Inv jobs first list s i (free page) d e inv =
    rw e (free_turn-Inv jobs first list s i page (s.pc i) d e inv refl)
