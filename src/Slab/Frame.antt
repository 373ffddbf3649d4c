-- ===== src/Slab/Frame.antt =====
-- What `__link_slab` and `__unlink_slab` of kernel/src/mm/slab.c leave alone: other lists, and the
-- free objects of every slab.
use learning_os.Base.{
  ℕ, ◌≡◌, ◌≢◌, refl, sym, subst, ◌∙◌, ap, List, [], ◌∷◌, ◌++◌, ◌==◌, Bool-cases, inl, inr, Mem,
  store,
}
use learning_os.Slab.{Cache, Heap, link_slab, unlink_slab, cell_at}
use learning_os.Slab.Links.{
  Distinct, Apart, Links, IsChain, Same-refl, Same-store, Links-Same, link_some, link_none,
}
use learning_os.Slab.Unlink.{
  unlink-Skips, Same-except, Apart-zero, prev_ne, next-Apart, prev-Apart, Apart-front, Apart-back,
}
use learning_os.Slab.Cells.{First, HasFree, Leads}

-- No slab stands in both lists.
abbrev pub Disjoint : List ℕ → List ℕ → Type 0
Disjoint [] ys = Unit {0}
Disjoint (x ∷ xs) ys = Apart x ys × Disjoint xs ys

pub Disjoint-Apart : (y : ℕ) (xs ys : List ℕ) → Disjoint xs (y ∷ ys) → Apart y xs
Disjoint-Apart y [] ys disjoint = tt
Disjoint-Apart y (x ∷ xs) ys ((ne, apart), disjoint) =
    ((λ e. ne (sym e)), Disjoint-Apart y xs ys disjoint)

pub Disjoint-cons : (a : ℕ) (xs ys : List ℕ) → Apart a xs → Disjoint xs ys → Disjoint xs (a ∷ ys)
Disjoint-cons a [] ys apart disjoint = tt
Disjoint-cons a (x ∷ xs) ys (ne, apart) (apart', disjoint) =
    (((λ e. ne (sym e)), apart'), Disjoint-cons a xs ys apart disjoint)

-- The free objects are the same.
pub record SameCells (heap heap' : Heap) : Type 0 where
  pub first_free_idx : heap'.first_free_idx ≡ heap.first_free_idx
  pub free_count : heap'.free_count ≡ heap.free_count
  pub next_free : heap'.next_free ≡ heap.next_free

pub HasFree-same :
    (cache : Cache) (heap heap' : Heap) (slab : ℕ) (cells : List ℕ)
    → SameCells heap heap'
    → HasFree cache heap slab cells
    → HasFree cache heap' slab cells
HasFree-same cache heap heap' slab cells same free = record {
  counted = ap (λ (m : Mem). m slab) same.free_count ∙ free.counted;
  first = first_same cells free.first;
  inside = free.inside;
  distinct = free.distinct;
}
  where
    first_same : (cells : List ℕ) → First cache heap slab cells → First cache heap' slab cells
    first_same [] first = tt
    first_same (i ∷ cells) (at, leads) = (
      ap (λ (m : Mem). m slab) same.first_free_idx ∙ at,
      subst (λ (m : Mem). Leads cache m slab (m (cell_at cache slab i)) cells) (sym same.next_free)
          leads,
    )

pub link-SameCells : (heap : Heap) (slab head : ℕ) → SameCells heap (link_slab heap slab head).0
unfolding link_slab
link-SameCells heap slab head = elim (Bool-cases (head == 0)) [
  | inl empty ↦ rw empty (record { first_free_idx = refl; free_count = refl; next_free = refl })
  | inr longer ↦ rw longer (record { first_free_idx = refl; free_count = refl; next_free = refl })
]

pub unlink-SameCells : (heap : Heap) (slab head : ℕ) → SameCells heap (unlink_slab heap slab head).0
unfolding unlink_slab
unlink-SameCells heap slab head = elim (Bool-cases (heap.prev slab == 0)) [
  | inl first ↦ elim (Bool-cases (heap.next slab == 0)) [
    | inl last ↦
        rw (first, last) (record { first_free_idx = refl; free_count = refl; next_free = refl })
    | inr behind ↦
        rw (first, behind) (record { first_free_idx = refl; free_count = refl; next_free = refl })
  ]
  | inr inner ↦ elim (Bool-cases (store heap.next (heap.prev slab) (heap.next slab) slab == 0)) [
    | inl last ↦
        rw (inner, last) (record { first_free_idx = refl; free_count = refl; next_free = refl })
    | inr behind ↦
        rw (inner, behind) (record { first_free_idx = refl; free_count = refl; next_free = refl })
  ]
]

pub SameCells-trans : {a b c : Heap} → SameCells a b → SameCells b c → SameCells a c
SameCells-trans h k = record {
  first_free_idx = k.first_free_idx ∙ h.first_free_idx;
  free_count = k.free_count ∙ h.free_count;
  next_free = k.next_free ∙ h.next_free;
}

-- Linking a slab to a list leaves a disjoint list as it is.
pub link_other :
    (heap : Heap) (slab head other : ℕ) (slabs others : List ℕ)
    → IsChain heap head slabs
    → Disjoint others slabs
    → Apart slab others
    → IsChain heap other others
    → IsChain (link_slab heap slab head).0 other others
link_other heap slab head other [] others (links, distinct) disjoint apart (links', distinct') =
    subst (λ h. IsChain (link_slab heap slab h).0 other others) (sym links)
      (subst (λ r. IsChain r.0 other others) (sym (link_none heap slab))
        (
          Links-Same heap.prev heap.next _ _ 0 other others
              (Same-store heap.prev _ slab 0 others apart (Same-refl heap.prev others))
              (Same-store heap.next _ slab 0 others apart (Same-refl heap.next others)) links',
          distinct',
        ))
link_other heap slab head other (s ∷ ss) others ((at, pos, back, rest), distinct) disjoint apart
      (links', distinct') =
    subst (λ h. IsChain (link_slab heap slab h).0 other others) (sym at)
      (subst (λ r. IsChain r.0 other others) (sym (link_some heap slab s pos))
        (
          Links-Same heap.prev heap.next _ _ 0 other others
              (Same-store heap.prev _ s slab others (Disjoint-Apart s others ss disjoint)
                (Same-store heap.prev _ slab 0 others apart (Same-refl heap.prev others)))
              (Same-store heap.next _ slab s others apart (Same-refl heap.next others)) links',
          distinct',
        ))

-- Unlinking a slab leaves a disjoint list as it is.
module _ (heap : Heap) (slab head : ℕ) (xs ys : List ℕ)
    (links : Links heap.prev heap.next 0 head (xs ++ slab ∷ ys)) where
  Apart-next :
      (others : List ℕ)
      → Disjoint others (xs ++ slab ∷ ys)
      → Apart 0 others
      → Apart (heap.next slab) others
  Apart-next [] disjoint zero_apart = tt
  Apart-next (o ∷ others) (apart, disjoint) (ne, zero_apart) =
      let away = next-Apart heap slab o 0 head xs ys links (λ e. ne (sym e)) apart in
      ((λ e. away (sym e)), Apart-next others disjoint zero_apart)

  ne_prev :
      (o : ℕ) (us : List ℕ)
      → Links heap.prev heap.next 0 head (us ++ slab ∷ ys)
      → o ≢ 0
      → Apart o (us ++ slab ∷ ys)
      → o ≢ heap.prev slab
  ne_prev o [] (at, pos, back, rest) ne apart = λ e. ne (e ∙ back)
  ne_prev o (x ∷ us) links ne apart =
      prev-Apart heap slab o 0 head x us ys links (Apart-front o (x ∷ us) (slab ∷ ys) apart)

  Apart-prev :
      (others : List ℕ)
      → Disjoint others (xs ++ slab ∷ ys)
      → Apart 0 others
      → Apart (heap.prev slab) others
  Apart-prev [] disjoint zero_apart = tt
  Apart-prev (o ∷ others) (apart, disjoint) (ne, zero_apart) =
      let away = ne_prev o xs links (λ e. ne (sym e)) apart in
      ((λ e. away (sym e)), Apart-prev others disjoint zero_apart)

  pub unlink_other :
      (other : ℕ) (others : List ℕ)
      → Distinct (xs ++ slab ∷ ys)
      → Disjoint others (xs ++ slab ∷ ys)
      → IsChain heap other others
      → IsChain (unlink_slab heap slab head).0 other others
  unlink_other other others distinct disjoint (links', distinct') =
      let (skips, at) = unlink-Skips heap slab head (prev_ne heap slab head xs ys links distinct) in
      let zero_apart = Apart-zero heap.prev heap.next 0 other others links' in
      (
        Links-Same heap.prev heap.next _ _ 0 other others
            (Same-except heap.prev _ (heap.next slab) others skips.other_prev
              (Apart-next others disjoint zero_apart))
            (Same-except heap.next _ (heap.prev slab) others skips.other_next
              (Apart-prev others disjoint zero_apart))
            links',
        distinct',
      )

Disjoint-tail : (y : ℕ) (xs ys : List ℕ) → Disjoint xs (y ∷ ys) → Disjoint xs ys
Disjoint-tail y [] ys disjoint = tt
Disjoint-tail y (x ∷ xs) ys ((ne, apart), disjoint) = (apart, Disjoint-tail y xs ys disjoint)

pub Disjoint-flip : (xs ys : List ℕ) → Disjoint xs ys → Disjoint ys xs
Disjoint-flip xs [] disjoint = tt
Disjoint-flip xs (y ∷ ys) disjoint =
    (Disjoint-Apart y xs ys disjoint, Disjoint-flip xs ys (Disjoint-tail y xs ys disjoint))

pub Disjoint-middle :
    (slab : ℕ) (xs ys zs : List ℕ)
    → Disjoint (xs ++ slab ∷ ys) zs
    → Apart slab zs × Disjoint (xs ++ ys) zs
Disjoint-middle slab [] ys zs (apart, disjoint) = (apart, disjoint)
Disjoint-middle slab (x ∷ xs) ys zs (apart, disjoint) =
    let (apart', rest) = Disjoint-middle slab xs ys zs disjoint in (apart', (apart, rest))

pub Distinct-middle :
    (slab : ℕ) (xs ys : List ℕ) → Distinct (xs ++ slab ∷ ys) → Apart slab (xs ++ ys)
Distinct-middle slab [] ys (apart, distinct) = apart
Distinct-middle slab (x ∷ xs) ys (apart, distinct) =
    let (ne, rest) = Apart-back x xs (slab ∷ ys) apart in
    ((λ e. ne (sym e)), Distinct-middle slab xs ys distinct)
