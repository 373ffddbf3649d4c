-- ===== src/PageAlloc/General.antt =====
-- kernel/src/mm/page_alloc.c: the list that `__init_general_pages` makes.
use learning_os.Base.{
  ℕ, zero, suc, ◌+◌, ◌-◌, ◌*◌, ◌/◌, ◌≤◌, ◌<◌, Option, none, some, List, [], ◌∷◌, ◌++◌, ◌==◌, leb,
  ltb, ◌&&◌, if◌then◌else◌, ◌≡◌, refl, arith, ◌∙◌, sym, ap, subst,
}
use mathlib.Core.List.{append-nil}
use learning_os.Page.{PageMap, or_flags, put_info, page_freelist, page_info}
use learning_os.BootMmap.{page_size}
use learning_os.PageAlloc.{set_link, link_general, link_behind_kernel, first_of, init_general_pages}
use learning_os.PageAlloc.Chain.{Chain}

-- `count` pages from `start` on
unfoldable pub pages_from : ℕ → ℕ → List ℕ
pages_from zero start = []
pages_from (suc count) start = start ∷ pages_from count (start + 1)

-- One round of either loop.
link-set :
    (map : PageMap) (page flags x : ℕ) (next : Option ℕ)
    → (set_link (or_flags map page flags) page next x).link
      ≡ (if x == page then next else (map x).link)
unfolding set_link or_flags put_info
link-set map page flags x next = ground arith

link-general :
    (count idx x : ℕ) (map : PageMap)
    → (link_general count idx map x).link
      ≡ (if leb idx x && ltb x (idx + count) then some (x + 1) else (map x).link)
unfolding link_general
link-general zero idx x map = ground arith
link-general (suc count) idx x map = ground (
  arith,
  link-general count (idx + 1) x (set_link (or_flags map idx page_freelist) idx (some (idx + 1))),
  link-set map idx page_freelist x (some (idx + 1)),
)

link-behind_kernel :
    (count k x : ℕ) (first : Option ℕ) (map : PageMap)
    → ((link_behind_kernel count (k * 4096) first map).1 x).link
      ≡ (if leb k x && ltb x (k + count) then some (x + 1) else (map x).link)
unfolding link_behind_kernel
link-behind_kernel zero k x first map = ground arith
link-behind_kernel (suc count) k x first map =
    let here : k * 4096 / 4096 ≡ k = omega arith in
    let next : k * 4096 + page_size ≡ (k + 1) * 4096 = omega arith in
    let there : (k + 1) * 4096 / 4096 ≡ k + 1 = omega arith in
    let map' = set_link (or_flags map k page_freelist) k (some (k + 1)) in
    rw (link_behind_kernel, next, here, there)
      (ground (
        arith,
        link-behind_kernel count (k + 1) x (some (first_of first k)) map',
        link-set map k page_freelist x (some (k + 1)),
      ))

first-behind_kernel :
    (count k page : ℕ) (map : PageMap) → (link_behind_kernel count k (some page) map).0 ≡ some page
unfolding link_behind_kernel first_of
first-behind_kernel zero k page map = refl
first-behind_kernel (suc count) k page map = first-behind_kernel count _ page _

head-behind_kernel :
    (count k : ℕ) (map : PageMap) → (link_behind_kernel (suc count) (k * 4096) none map).0 ≡ some k
unfolding link_behind_kernel first_of
head-behind_kernel count k map =
    let here : k * 4096 / 4096 ≡ k = omega arith in
    first-behind_kernel count _ (page_info (k * 4096)) _ ∙ ap some here

-- A run of pages of which each links to the next one, and the last one to `next`.
Chain-pages_from :
    (map : PageMap) (count start : ℕ) (next : Option ℕ) (rest : List ℕ)
    → ((x : ℕ) → start ≤ x → x < start + count → (map x).link ≡ some (x + 1))
    → (map (start + count)).link ≡ next
    → Chain map next rest
    → Chain map (some start) (pages_from (suc count) start ++ rest)
unfolding pages_from
Chain-pages_from map zero start next rest inner last h = (
  refl,
  subst (λ (o : Option ℕ). Chain map o rest)
      (sym (ap (λ (p : ℕ). (map p).link) (omega arith) ∙ last)) h,
)
Chain-pages_from map (suc count) start next rest inner last h =
    let onward = λ (x : ℕ) (a : start + 1 ≤ x) (b : x < start + 1 + count).
      inner x (omega arith) (omega arith) in
    (
      refl,
      rw (inner start (omega arith) (omega arith)) (
          Chain-pages_from map count (start + 1) next rest onward
            (ap (λ (p : ℕ). (map p).link) (omega arith) ∙ last) h),
    )

module _ (map : PageMap) (k b : ℕ) (far : 1024 ≤ k) (more : k + 1 < b) where
  -- The links that both loops leave, and the one that joins their runs.
  link-init_general :
      (x : ℕ)
      → ((init_general_pages (k * 4096) (b * 4096) map).pages x).link ≡ (
          if x == 1023
          then some (k + 1)
          else if leb (k + 1) x && ltb x b
          then some (x + 1)
          else if leb 1 x && ltb x 1024
          then some (x + 1)
          else (map x).link)
  unfolding init_general_pages set_link put_info
  link-init_general x =
      let start : k * 4096 + 4096 ≡ (k + 1) * 4096 = omega arith in
      let rounds : (b * 4096 - (k + 1) * 4096 + 4096 - 1) / 4096 ≡ suc (b - k - 2) = omega arith in
      let general = link_general 1023 1 map in
      rw (start, rounds, head-behind_kernel (b - k - 2) (k + 1) general)
        (ground (
          arith,
          link-behind_kernel (suc (b - k - 2)) (k + 1) x none general,
          link-general 1023 1 x map,
        ))

  head-init_general : (init_general_pages (k * 4096) (b * 4096) map).head ≡ some 1
  unfolding init_general_pages
  head-init_general = refl

  -- The run from the kernel's end on.
  Chain-behind_kernel :
      (map b).link ≡ none
      → Chain
          (init_general_pages (k * 4096) (b * 4096) map).pages
          (some (k + 1))
          (pages_from (b - k) (k + 1))
  Chain-behind_kernel null =
      let m = (init_general_pages (k * 4096) (b * 4096) map).pages in
      let length : suc (b - k - 1) ≡ b - k = omega arith in
      let last : b ≡ k + 1 + (b - k - 1) = omega arith in
      let at_end : (m b).link ≡ none = ground (arith, link-init_general b) in
      subst (λ (pages : List ℕ). Chain m (some (k + 1)) pages)
        (append-nil _ ∙ ap (λ (n : ℕ). pages_from n (k + 1)) length)
        (Chain-pages_from m (b - k - 1) (k + 1) none []
          (λ x above below. ground (arith, link-init_general x))
          (subst (λ (p : ℕ). (m p).link ≡ none) last at_end) refl)

  -- `__init_general_pages`, where the kernel's last page `k` lies behind the first 4 MB and the
  -- buddy allocator starts at a page `b` behind the page that follows: the list is the pages from
  -- 1 to 1023, then those from `k + 1` on, up to the page `b` and with it, if the link of this page
  -- was NULL.
  pub init_general_lem :
      (map b).link ≡ none
      → let m = init_general_pages (k * 4096) (b * 4096) map in
        Chain m.pages m.head (pages_from 1023 1 ++ pages_from (b - k) (k + 1))
  init_general_lem null = rw head-init_general (
      Chain-pages_from (init_general_pages (k * 4096) (b * 4096) map).pages 1022 1 (some (k + 1)) _
        (λ x above below. ground (arith, link-init_general x))
        (ground (arith, link-init_general 1023)) (Chain-behind_kernel null))
