-- ===== src/PageAlloc/Chain.antt =====
-- kernel/src/mm/page_alloc.c: the list of free pages as the chain of the links.
use learning_os.Base.{ℕ, ◌<◌, Option, none, some, List, [], ◌∷◌, ◌≡◌, arith, times}
use learning_os.Page.{PageMap}

-- The links lead from `head` along the pages of the list to NULL.
abbrev pub Chain : PageMap → Option ℕ → List ℕ → Type 0
Chain map head [] = head ≡ none
Chain map head (page ∷ pages) = (head ≡ some page) × Chain map (map page).link pages

-- A chain holds in every map with the same links of its pages.
pub Chain-keep :
    (map map' : PageMap) (head : Option ℕ) (pages : List ℕ)
    → ((q : ℕ) → 0 < times q pages → (map' q).link ≡ (map q).link)
    → Chain map head pages
    → Chain map' head pages
unfolding times
Chain-keep map map' head [] same h = h
Chain-keep map map' head (page ∷ pages) same h =
    let rest = Chain-keep map map' (map page).link pages (λ q lt. same q (ground arith)) h.1 in
    (h.0, rw (same page (ground arith)) rest)
