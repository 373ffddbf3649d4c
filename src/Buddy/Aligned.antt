-- ===== src/Buddy/Aligned.antt =====
-- Every free block of the lists of kernel/src/mm/buddy_alloc.c starts at a multiple of its size.
pub mod Taking
pub mod Giving
use learning_os.Base.{
  ℕ, zero, suc, ◌+◌, ◌-◌, ◌*◌, ◌/◌, ◌%◌, ◌^◌, ◌≤◌, ◌<◌, ◌≡◌, ◌≢◌, refl, ◌∙◌, ap, sym, subst, Option,
  none, some, List, [], ◌∷◌, get_elem?, set, length, arith, ◌>>=◌, >>=-eq-some, eq_of_some,
  get_elem?-set_self, get_elem?-set_ne, lt_of_get_elem?,
}
use native.Mathlib.Decide.{ℕ_discrete}
use learning_os.Buddy.Index.{max_order}
use learning_os.Buddy.State.{BuddyAllocator, take_object, allocate_freelist_entry}

abbrev pub AlignedList : ℕ → List ℕ → Type 0
AlignedList order [] = Unit {0}
AlignedList order (off ∷ offs) = (off % 2 ^ order ≡ 0) × AlignedList order offs

abbrev pub AlignedLists : List (List ℕ) → Type 0
AlignedLists ls = (i : ℕ) (l : List ℕ) → get_elem? ls i ≡ some l → AlignedList i l

abbrev pub IsAligned : BuddyAllocator → Type 0
IsAligned a = AlignedLists a.freelists

pub AlignedLists-set :
    (ls : List (List ℕ)) (i : ℕ) {k : List ℕ} (l : List ℕ)
    → get_elem? ls i ≡ some k
    → AlignedLists ls
    → AlignedList i l
    → AlignedLists (set ls i l)
AlignedLists-set ls i l at aligned new j m h = elim (ℕ_discrete i j) [
  | yes same ↦
      let here = get_elem?-set_self ls i l (lt_of_get_elem? ls i at) in
      let e : l ≡ m = eq_of_some (sym here ∙ ap (get_elem? (set ls i l)) same ∙ h) in
      subst (λ o. AlignedList o m) same (rw (← e) new)
  | no other ↦ aligned j m (sym (get_elem?-set_ne ls i j l other) ∙ h)
]

-- An aligned block of twice the size splits into two aligned blocks.
pub aligned_halves :
    (p k : ℕ) → k ≤ max_order → p % 2 ^ suc k ≡ 0 → (p % 2 ^ k ≡ 0) × ((p + 2 ^ k) % 2 ^ k ≡ 0)
aligned_halves p zero h a = omega arith
aligned_halves p (suc zero) h a = omega arith
aligned_halves p (suc (suc zero)) h a = omega arith
aligned_halves p (suc (suc (suc zero))) h a = omega arith
aligned_halves p (suc (suc (suc (suc zero)))) h a = omega arith
aligned_halves p (suc (suc (suc (suc (suc zero))))) h a = omega arith
aligned_halves p (suc (suc (suc (suc (suc (suc zero)))))) h a = omega arith
aligned_halves p (suc (suc (suc (suc (suc (suc (suc zero))))))) h a = omega arith
aligned_halves p (suc (suc (suc (suc (suc (suc (suc (suc o)))))))) h a = absurd (omega arith)

pub allocate-IsAligned :
    (a a' : BuddyAllocator) (off order : ℕ)
    → off < 2 ^ 24
    → off % 2 ^ order ≡ 0
    → IsAligned a
    → allocate_freelist_entry a off order ≡ some a'
    → IsAligned a'
unfolding allocate_freelist_entry
allocate-IsAligned a a' off order fits here aligned h =
    let (total, took, h0) = >>=-eq-some (take_object a.total_free_objects) _ h in
    let (l, at, h1) = >>=-eq-some (get_elem? a.freelists order) _ h0 in
    let whole : off % 2 ^ 24 ≡ off = omega arith in
    rw (← eq_of_some h1) (
      AlignedLists-set a.freelists order ((off % 2 ^ 24) ∷ l) at aligned
        (rw whole here, aligned order l at))
