-- ===== src/Buddy/Pages.antt =====
-- The abstract view of the free lists of kernel/src/mm/buddy_alloc.c: how often each page is free.
-- Order and splitting are forgotten, so that an operation is described by the pages that it moves.
use learning_os.Base.{
  ℕ, zero, suc, ◌+◌, ◌^◌, ◌≡◌, ◌&&◌, some, List, [], ◌∷◌, ltb, leb, if◌then◌else◌, get_elem?, set,
  arith, min,
}
use learning_os.Base.Powers.{double_pow}
use learning_os.Buddy.Index.Buddies.{Buddies}

-- 1 if page `x` is one of `n` pages from `off` on, and 0 if not
abbrev pub span : ℕ → ℕ → ℕ → ℕ
span off n x = if leb off x && ltb x (off + n) then 1 else 0

abbrev pub covers : ℕ → ℕ → ℕ → ℕ
covers order off x = span off (2 ^ order) x

abbrev pub count : ℕ → List ℕ → ℕ → ℕ
count order [] x = 0
count order (off ∷ offs) x = covers order off x + count order offs x

-- How often page `x` stands in the lists, the first of which is that of `order`.
abbrev pub total_from : ℕ → List (List ℕ) → ℕ → ℕ
total_from order [] x = 0
total_from order (l ∷ ls) x = count order l x + total_from (suc order) ls x

abbrev pub free_pages : List (List ℕ) → ℕ → ℕ
free_pages = total_from 0

total_from-set :
    (order i j : ℕ) (ls : List (List ℕ)) (l l' : List ℕ) (x : ℕ)
    → get_elem? ls i ≡ some l
    → order + i ≡ j
    → total_from order (set ls i l') x + count j l x ≡ total_from order ls x + count j l' x
total_from-set order i j [] l l' x h e = ground arith
total_from-set order zero j (k ∷ ls) l l' x h e = ground arith
total_from-set order (suc i) j (k ∷ ls) l l' x h e =
    omega (arith, total_from-set (suc order) i j ls l l' x h (omega arith))

-- A list that is replaced moves the difference of its pages.
pub free_pages-set :
    (i : ℕ) (ls : List (List ℕ)) (l l' : List ℕ) (x : ℕ)
    → get_elem? ls i ≡ some l
    → free_pages (set ls i l') x + count i l x ≡ free_pages ls x + count i l' x
free_pages-set i ls l l' x h = total_from-set 0 i i ls l l' x h (omega arith)

pub span-append : (off n k x : ℕ) → span off (n + k) x ≡ span off n x + span (off + n) k x
span-append off n k x = ground arith

-- The two halves of a block make up the block.
pub covers-halves :
    (order off x : ℕ)
    → covers (suc order) off x ≡ covers order off x + covers order (off + 2 ^ order) x
covers-halves order off x = ground (arith, double_pow order)

pub covers-Buddies :
    (order off buddy x : ℕ)
    → Buddies off buddy order
    → covers order off x + covers order buddy x ≡ covers (suc order) (min off buddy) x
covers-Buddies order off buddy x h = grind (arith, double_pow order)
