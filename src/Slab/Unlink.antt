-- ===== src/Slab/Unlink.antt =====
-- Taking a slab out of a doubly linked list, `__unlink_slab` of kernel/src/mm/slab.c.
use learning_os.Base.{
  ℕ, ◌≡◌, ◌≢◌, refl, sym, subst, ◌∙◌, List, [], ◌∷◌, ◌++◌, ◌==◌, Bool-cases, inl, inr, true, false,
  if◌then◌else◌, Mem, store, store_ne, arith,
}
use learning_os.Slab.{Heap, unlink_slab}
use learning_os.Slab.Links.{Apart, Distinct, Links, IsChain, Same, Links-Same}

-- What `__unlink_slab` does to the fields, in one place: the slab in front of `slab`, if there is
-- one, leads to the slab behind it, and that one back to it.
pub record Skips (heap : Heap) (slab : ℕ) (heap' : Heap) : Type 0 where
  pub forth : heap.prev slab ≢ 0 → heap'.next (heap.prev slab) ≡ heap.next slab
  pub back : heap.next slab ≢ 0 → heap'.prev (heap.next slab) ≡ heap.prev slab
  pub other_next : (a : ℕ) → a ≢ heap.prev slab → heap'.next a ≡ heap.next a
  pub other_prev : (a : ℕ) → a ≢ heap.next slab → heap'.prev a ≡ heap.prev a

pub unlink-Skips :
    (heap : Heap) (slab head : ℕ)
    → heap.prev slab ≢ slab
    → Skips heap slab (unlink_slab heap slab head).0
      × ((unlink_slab heap slab head).1 ≡ (if heap.prev slab == 0 then heap.next slab else head))
unfolding unlink_slab store
unlink-Skips heap slab head ne = elim (Bool-cases (heap.prev slab == 0)) [
  | inl first ↦ elim (Bool-cases (heap.next slab == 0)) [
    | inl last ↦
        rw (first, last)
          (
            record {
              forth = λ h. ground arith;
              back = λ h. ground arith;
              other_next = λ a h. refl;
              other_prev = λ a h. refl;
            },
            refl,
          )
    | inr behind ↦
        rw (first, behind)
          (
            record {
              forth = λ h. ground arith;
              back = λ h. ground arith;
              other_next = λ a h. refl;
              other_prev = λ a h. ground arith;
            },
            refl,
          )
  ]
  | inr inner ↦
      let own : store heap.next (heap.prev slab) (heap.next slab) slab ≡ heap.next slab =
        store_ne heap.next (heap.prev slab) (heap.next slab) slab (λ e. ne (sym e)) in
      elim (Bool-cases (heap.next slab == 0)) [
        | inl last ↦
            rw (inner, own, last)
              (
                record {
                  forth = λ h. ground arith;
                  back = λ h. ground arith;
                  other_next = λ a h. ground arith;
                  other_prev = λ a h. refl;
                },
                refl,
              )
        | inr behind ↦
            rw (inner, own, behind)
              (
                record {
                  forth = λ h. ground arith;
                  back = λ h. ground arith;
                  other_next = λ a h. ground arith;
                  other_prev = λ a h. ground arith;
                },
                refl,
              )
      ]
]

pub Same-except :
    (m m' : Mem) (c : ℕ) (ss : List ℕ) → ((a : ℕ) → a ≢ c → m' a ≡ m a) → Apart c ss → Same m m' ss
Same-except m m' c [] other apart = tt
Same-except m m' c (s ∷ ss) other (ne, apart) =
    (other s (λ e. ne (sym e)), Same-except m m' c ss other apart)

-- Facts about the lists around a slab.
pub Apart-front : (a : ℕ) (xs ys : List ℕ) → Apart a (xs ++ ys) → Apart a xs
Apart-front a [] ys apart = tt
Apart-front a (x ∷ xs) ys (ne, apart) = (ne, Apart-front a xs ys apart)

pub Apart-back : (a : ℕ) (xs ys : List ℕ) → Apart a (xs ++ ys) → Apart a ys
Apart-back a [] ys apart = apart
Apart-back a (x ∷ xs) ys (ne, apart) = Apart-back a xs ys apart

Apart-join : (a : ℕ) (xs ys : List ℕ) → Apart a xs → Apart a ys → Apart a (xs ++ ys)
Apart-join a [] ys apart apart' = apart'
Apart-join a (x ∷ xs) ys (ne, apart) apart' = (ne, Apart-join a xs ys apart apart')

pub Distinct-front : (slab : ℕ) (xs ys : List ℕ) → Distinct (xs ++ slab ∷ ys) → Apart slab xs
Distinct-front slab [] ys distinct = tt
Distinct-front slab (x ∷ xs) ys (apart, distinct) =
    let (ne, rest) = Apart-back x xs (slab ∷ ys) apart in
    ((λ e. ne (sym e)), Distinct-front slab xs ys distinct)

pub Distinct-remove : (slab : ℕ) (xs ys : List ℕ) → Distinct (xs ++ slab ∷ ys) → Distinct (xs ++ ys)
Distinct-remove slab [] ys (apart, distinct) = distinct
Distinct-remove slab (x ∷ xs) ys (apart, distinct) =
    let (ne, rest) = Apart-back x xs (slab ∷ ys) apart in
    (
      Apart-join x xs ys (Apart-front x xs (slab ∷ ys) apart) rest,
      Distinct-remove slab xs ys distinct,
    )

pub Apart-zero :
    (prev next : Mem) (before head : ℕ) (ss : List ℕ) → Links prev next before head ss → Apart 0 ss
Apart-zero prev next before head [] links = tt
Apart-zero prev next before head (s ∷ ss) (at, pos, back, rest) =
    ((λ e. pos (sym e)), Apart-zero prev next s (next s) ss rest)

module _ (heap : Heap) (slab : ℕ) where
  pub next-Apart :
      (a before head : ℕ) (xs ys : List ℕ)
      → Links heap.prev heap.next before head (xs ++ slab ∷ ys)
      → a ≢ 0
      → Apart a (xs ++ slab ∷ ys)
      → a ≢ heap.next slab
  next-Apart a before head [] [] (at, pos, back, rest) ne apart = λ e. ne (e ∙ rest)
  next-Apart a before head [] (y ∷ ys) (at, pos, back, (at_y, pos_y, back_y, rest)) ne
        (ne_s, (ne_y, apart)) =
      λ e. ne_y (e ∙ at_y)
  next-Apart a before head (x ∷ xs) ys (at, pos, back, rest) ne (ne_x, apart) =
      next-Apart a x (heap.next x) xs ys rest ne apart

  pub prev-Apart :
      (a before head x : ℕ) (xs ys : List ℕ)
      → Links heap.prev heap.next before head (x ∷ (xs ++ slab ∷ ys))
      → Apart a (x ∷ xs)
      → a ≢ heap.prev slab
  prev-Apart a before head x [] ys (at, pos, back, (at_s, pos_s, back_s, rest)) (ne, apart) =
      λ e. ne (e ∙ back_s)
  prev-Apart a before head x (w ∷ xs) ys (at, pos, back, rest) (ne, apart) =
      prev-Apart a x (heap.next x) w xs ys rest apart

  -- The head of a list that loses the slab behind `xs`.
  abbrev new_head : List ℕ → ℕ → ℕ
  new_head [] head = heap.next slab
  new_head (x ∷ xs) head = head

  module _ (heap' : Heap) (skips : Skips heap slab heap') where
    skip_tail :
        (before head : ℕ) (ys : List ℕ)
        → Links heap.prev heap.next before head (slab ∷ ys)
        → Apart before ys
        → Distinct ys
        → Links heap'.prev heap'.next before (heap.next slab) ys
    skip_tail before head [] (at, pos, back, rest) apart distinct = rest
    skip_tail before head (y ∷ ys) (at, pos, back, (at_y, pos_y, back_y, rest)) (ne, apart)
          (apart_y, distinct) =
        let joined : heap'.prev y ≡ before =
          rw at_y at (skips.back (λ e. pos_y (sym at_y ∙ e))) ∙ back in
        let kept : heap'.next y ≡ heap.next y = skips.other_next y (λ e. ne (sym back ∙ sym e)) in
        (
          at_y,
          pos_y,
          joined,
          rw kept (
              Links-Same heap.prev heap.next heap'.prev heap'.next y (heap.next y) ys
                (Same-except heap.prev heap'.prev (heap.next slab) ys skips.other_prev
                  (rw at_y apart_y))
                (Same-except heap.next heap'.next (heap.prev slab) ys skips.other_next
                  (rw back apart))
                rest),
        )

    skip_lem :
        (before head : ℕ) (xs ys : List ℕ)
        → Links heap.prev heap.next before head (xs ++ slab ∷ ys)
        → Apart before (xs ++ slab ∷ ys)
        → Distinct (xs ++ slab ∷ ys)
        → Links heap'.prev heap'.next before (new_head xs head) (xs ++ ys)
    skip_lem before head [] ys links (ne, apart) (apart_s, distinct) =
        skip_tail before head ys links apart distinct
    skip_lem before head (x ∷ xs) ys (at, pos, back, rest) apart (apart_x, distinct) =
        let kept : heap'.prev x ≡ heap.prev x =
          skips.other_prev x (next-Apart x x (heap.next x) xs ys rest pos apart_x) in
        let led : heap'.next x ≡ new_head xs (heap.next x) = lead x xs ys pos rest apart_x in
        (at, pos, kept ∙ back, rw led (skip_lem x (heap.next x) xs ys rest apart_x distinct))
      where
        lead :
            (x : ℕ) (xs ys : List ℕ)
            → x ≢ 0
            → Links heap.prev heap.next x (heap.next x) (xs ++ slab ∷ ys)
            → Apart x (xs ++ slab ∷ ys)
            → heap'.next x ≡ new_head xs (heap.next x)
        lead x [] ys pos (at, pos_s, back, rest) apart =
            rw back at (skips.forth (λ e. pos (sym back ∙ e)))
        lead x (w ∷ xs) ys pos links apart =
            skips.other_next x (
              prev-Apart x x (heap.next x) w xs ys links (Apart-front x (w ∷ xs) (slab ∷ ys) apart))

pub prev_ne :
    (heap : Heap) (slab head : ℕ) (xs ys : List ℕ)
    → Links heap.prev heap.next 0 head (xs ++ slab ∷ ys)
    → Distinct (xs ++ slab ∷ ys)
    → heap.prev slab ≢ slab
prev_ne heap slab head [] ys (at, pos, back, rest) distinct = λ e. pos (sym e ∙ back)
prev_ne heap slab head (x ∷ xs) ys links distinct =
    let ne =
      prev-Apart heap slab slab 0 head x xs ys links (Distinct-front slab (x ∷ xs) ys distinct) in
    λ e. ne (sym e)

head_lem :
    (heap : Heap) (slab head : ℕ) (xs ys : List ℕ)
    → Links heap.prev heap.next 0 head (xs ++ slab ∷ ys)
    → Apart 0 (xs ++ slab ∷ ys)
    → (if heap.prev slab == 0 then heap.next slab else head) ≡ new_head heap slab xs head
head_lem heap slab head [] ys (at, pos, back, rest) apart =
    let first : (heap.prev slab == 0) ≡ true = ground arith in rw first refl
head_lem heap slab head (x ∷ xs) ys links apart =
    let ne =
      prev-Apart heap slab 0 0 head x xs ys links (Apart-front 0 (x ∷ xs) (slab ∷ ys) apart) in
    let inner : (heap.prev slab == 0) ≡ false = ground arith in rw inner refl

-- `__unlink_slab` of any slab of a list leaves the list of the others, in their order, behind the
-- head that it stores.
pub unlink_lem :
    (heap : Heap) (slab head : ℕ) (xs ys : List ℕ)
    → IsChain heap head (xs ++ slab ∷ ys)
    → IsChain (unlink_slab heap slab head).0 (unlink_slab heap slab head).1 (xs ++ ys)
unlink_lem heap slab head xs ys (links, distinct) =
    let zero_apart = Apart-zero heap.prev heap.next 0 head (xs ++ slab ∷ ys) links in
    let (skips, at) = unlink-Skips heap slab head (prev_ne heap slab head xs ys links distinct) in
    let heap' = (unlink_slab heap slab head).0 in
    (
      subst (λ h. Links heap'.prev heap'.next 0 h (xs ++ ys))
          (sym (at ∙ head_lem heap slab head xs ys links zero_apart))
          (skip_lem heap slab heap' skips 0 head xs ys links zero_apart distinct),
      Distinct-remove slab xs ys distinct,
    )
