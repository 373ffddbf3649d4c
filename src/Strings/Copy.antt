-- ===== src/Strings/Copy.antt =====
-- `memcpy` of kernel/src/utility/strings.c.
use learning_os.Base.{
  ℕ, zero, suc, ◌+◌, ◌-◌, ◌*◌, ◌/◌, ◌%◌, ◌≤◌, ◌<◌, ◌≡◌, sym, ap, ◌∙◌, ◌⊎◌, inl, inr, ◌&&◌, ltb, leb,
  if◌then◌else◌, Mem, store, arith,
}
use native.Mathlib.Decide.{dec_lt}
use learning_os.Strings.{move_longword, move_longwords, move_chars, memcpy}

-- The bytes from `source` on in place of the `n` bytes from `dest` on.
abbrev pub copied : Mem → ℕ → ℕ → ℕ → ℕ → ℕ
copied m dest source n a = if leb dest a && ltb a (dest + n) then m (source + (a - dest)) else m a

abbrev pub AreApart : ℕ → ℕ → ℕ → Type 0
AreApart dest source n = (dest + n ≤ source) ⊎ (source + n ≤ dest)

AreApart-later :
    (dest source l n k : ℕ)
    → l + k ≤ n
    → AreApart dest source n
    → AreApart (dest + l) (source + l) k
AreApart-later dest source l n k le (inl below) = inl (omega arith)
AreApart-later dest source l n k le (inr above) = inr (omega arith)

longwords_lem :
    (m : Mem) (dest source k a : ℕ)
    → AreApart dest source (8 * k)
    → move_longwords m dest source k a ≡ copied m dest source (8 * k) a
unfolding move_longwords move_longword
longwords_lem m dest source zero a apart = ground arith
longwords_lem m dest source (suc k) a apart =
    let rest =
      longwords_lem (move_longword m dest source) (dest + 8) (source + 8) k a
        (AreApart-later dest source 8 (8 * suc k) (8 * k) (omega arith) apart) in
    grind (arith, rest)

chars_lem :
    (m : Mem) (dest source k a : ℕ)
    → AreApart dest source k
    → move_chars m dest source k a ≡ copied m dest source k a
unfolding move_chars store
chars_lem m dest source zero a apart = ground arith
chars_lem m dest source (suc k) a apart =
    let rest =
      chars_lem (store m dest (m source)) (dest + 1) (source + 1) k a
        (AreApart-later dest source 1 (suc k) k (omega arith) apart) in
    grind (arith, rest)

copied-in :
    (m : Mem) (dest source n a : ℕ)
    → dest ≤ a
    → a < dest + n
    → copied m dest source n a ≡ m (source + (a - dest))
copied-in m dest source n a lo hi = ground arith

copied-out :
    (m : Mem) (dest source n a : ℕ) → (a < dest) ⊎ (dest + n ≤ a) → copied m dest source n a ≡ m a
copied-out m dest source n a out = ground arith

-- Copying `w` bytes and then the `r` behind them copies `w + r` bytes.
copied-append :
    (m m' : Mem) (dest source w r a : ℕ)
    → AreApart dest source (w + r)
    → ((b : ℕ) → m' b ≡ copied m dest source w b)
    → copied m' (dest + w) (source + w) r a ≡ copied m dest source (w + r) a
copied-append m m' dest source w r a apart head = elim (dec_lt a (dest + w)) [
  | yes below ↦
      copied-out m' (dest + w) (source + w) r a (inl below) ∙ head a ∙ (elim (dec_lt a dest) [
        | yes front ↦
            copied-out m dest source w a (inl front)
            ∙ sym (copied-out m dest source (w + r) a (inl front))
        | no inside ↦
            copied-in m dest source w a (omega arith) below
            ∙ sym (copied-in m dest source (w + r) a (omega arith) (omega arith))
      ])
  | no above ↦ elim (dec_lt a (dest + (w + r))) [
    | yes inside ↦
        let from = source + w + (a - (dest + w)) in
        let same : from ≡ source + (a - dest) = omega arith in
        let outside : (from < dest) ⊎ (dest + w ≤ from) = elim apart [
          | inl front ↦ inr (omega arith)
          | inr behind ↦ inl (omega arith)
        ] in
        copied-in m' (dest + w) (source + w) r a (omega arith) (omega arith)
        ∙ head from
        ∙ copied-out m dest source w from outside
        ∙ ap m same
        ∙ sym (copied-in m dest source (w + r) a (omega arith) inside)
    | no behind ↦
        copied-out m' (dest + w) (source + w) r a (inr (omega arith))
        ∙ head a
        ∙ copied-out m dest source w a (inr (omega arith))
        ∙ sym (copied-out m dest source (w + r) a (inr (omega arith)))
  ]
]

-- `memcpy` between ranges that do not overlap puts the `n` bytes from `source` on in place of those
-- from `dest` on, and changes no other byte.
pub memcpy_lem :
    (m : Mem) (dest source n a : ℕ)
    → AreApart dest source n
    → memcpy m dest source n a ≡ copied m dest source n a
unfolding memcpy
memcpy_lem m dest source n a apart =
    let w = 8 * (n / 8) in
    let apart_w : AreApart dest source w = elim apart [
      | inl below ↦ inl (omega arith)
      | inr above ↦ inr (omega arith)
    ] in
    let all : w + n % 8 ≡ n = omega arith in
    let m' = move_longwords m dest source (n / 8) in
    chars_lem m' (dest + w) (source + w) (n % 8) a
      (AreApart-later dest source w n (n % 8) (omega arith) apart)
    ∙ copied-append m m' dest source w (n % 8) a (rw all apart)
        (λ b. longwords_lem m dest source (n / 8) b apart_w)
    ∙ ap (λ (l : ℕ). copied m dest source l a) all
