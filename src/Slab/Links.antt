-- ===== src/Slab/Links.antt =====
-- The doubly linked lists of slabs, `__link_slab` and `__unlink_slab` of kernel/src/mm/slab.c.
use learning_os.Base.{
  ℕ, ◌≡◌, ◌≢◌, refl, sym, subst, ◌∙◌, List, [], ◌∷◌, ◌==◌, false, Mem, store, store_self, store_ne,
  arith,
}
use learning_os.Slab.{Heap, link_slab}

-- No slab of the list is `a`.
abbrev pub Apart : ℕ → List ℕ → Type 0
Apart a [] = Unit {0}
Apart a (s ∷ ss) = (a ≢ s) × Apart a ss

abbrev pub Distinct : List ℕ → Type 0
Distinct [] = Unit {0}
Distinct (s ∷ ss) = Apart s ss × Distinct ss

-- The slabs of the list hang together from `head` on, behind the slab `before`.
abbrev pub Links : Mem → Mem → ℕ → ℕ → List ℕ → Type 0
Links prev next before head [] = head ≡ 0
Links prev next before head (s ∷ ss) =
    (head ≡ s) × (s ≢ 0) × (prev s ≡ before) × Links prev next s (next s) ss

-- A list of slabs with its head.
abbrev pub IsChain : Heap → ℕ → List ℕ → Type 0
IsChain heap head slabs = Links heap.prev heap.next 0 head slabs × Distinct slabs

-- A field is the same for all the slabs of the list.
abbrev pub Same : Mem → Mem → List ℕ → Type 0
Same m m' [] = Unit {0}
Same m m' (s ∷ ss) = (m' s ≡ m s) × Same m m' ss

pub Same-refl : (m : Mem) (ss : List ℕ) → Same m m ss
Same-refl m [] = tt
Same-refl m (s ∷ ss) = (refl, Same-refl m ss)

pub Same-store :
    (m m' : Mem) (a v : ℕ) (ss : List ℕ) → Apart a ss → Same m m' ss → Same m (store m' a v) ss
Same-store m m' a v [] apart same = tt
Same-store m m' a v (s ∷ ss) (ne, apart) (e, same) =
    (store_ne m' a v s (λ h. ne (sym h)) ∙ e, Same-store m m' a v ss apart same)

-- Writes to other slabs leave a list as it is.
pub Links-Same :
    (prev next prev' next' : Mem) (before head : ℕ) (ss : List ℕ)
    → Same prev prev' ss
    → Same next next' ss
    → Links prev next before head ss
    → Links prev' next' before head ss
Links-Same prev next prev' next' before head [] same same' links = links
Links-Same prev next prev' next' before head (s ∷ ss) (e, same) (e', same') (at, pos, back, rest) =
    (at, pos, e ∙ back, rw e' (Links-Same prev next prev' next' s (next s) ss same same' rest))

pub link_some :
    (heap : Heap) (slab head : ℕ)
    → head ≢ 0
    → link_slab heap slab head ≡ (
      record heap {
        next = store heap.next slab head;
        prev = store (store heap.prev slab 0) head slab;
      },
      slab,
    )
unfolding link_slab
link_some heap slab head h = let some_head : (head == 0) ≡ false = ground arith in rw some_head

pub link_none :
    (heap : Heap) (slab : ℕ)
    → link_slab heap slab 0
      ≡ (record heap { next = store heap.next slab 0; prev = store heap.prev slab 0 }, slab)
unfolding link_slab
link_none heap slab = refl

-- `__link_slab` of a slab at an address other than 0 that is not in a list puts it at the head of
-- the list.
pub link_lem :
    (heap : Heap) (slab head : ℕ) (slabs : List ℕ)
    → IsChain heap head slabs
    → slab ≢ 0
    → Apart slab slabs
    → IsChain (link_slab heap slab head).0 (link_slab heap slab head).1 (slab ∷ slabs)
link_lem heap slab head [] (links, distinct) pos apart =
    rw (links, link_none heap slab)
      ((refl, pos, store_self heap.prev slab 0, store_self heap.next slab 0), (tt, tt))
link_lem heap slab head (s ∷ ss) ((at, pos_s, back, rest), (apart_s, distinct)) pos (ne, apart) =
    subst (λ g. IsChain (link_slab heap slab g).0 (link_slab heap slab g).1 (slab ∷ s ∷ ss))
      (sym at)
      (subst (λ r. IsChain r.0 r.1 (slab ∷ s ∷ ss)) (sym (link_some heap slab s pos_s))
        (
          (
            refl,
            pos,
            store_ne (store heap.prev slab 0) s slab slab ne ∙ store_self heap.prev slab 0,
            (
              store_self heap.next slab s,
              pos_s,
              store_self (store heap.prev slab 0) s slab,
              rw (store_ne heap.next slab s s (λ e. ne (sym e))) (
                  Links-Same heap.prev heap.next _ _ s (heap.next s) ss
                    (Same-store heap.prev _ s slab ss apart_s
                      (Same-store heap.prev _ slab 0 ss apart (Same-refl heap.prev ss)))
                    (Same-store heap.next _ slab s ss apart (Same-refl heap.next ss)) rest),
            ),
          ),
          ((ne, apart), (apart_s, distinct)),
        ))
