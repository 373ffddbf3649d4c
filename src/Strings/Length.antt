-- ===== src/Strings/Length.antt =====
-- `strlen` of kernel/src/utility/strings.c.
use learning_os.Base.{
  ℕ, zero, suc, ◌+◌, ◌<◌, ◌≡◌, ◌≢◌, refl, ap, subst, ◌∙◌, some, ◌==◌, true, false, Mem, arith,
}
use learning_os.Strings.{strlen}

-- The characters of a string of length `n`, and the byte 0 behind them.
abbrev pub IsString : Mem → ℕ → ℕ → Type 0
IsString m str n = ((i : ℕ) → i < n → m (str + i) ≢ 0) × (m (str + n) ≡ 0)

-- `strlen` of a string of length `n` returns `n` after `n + 1` rounds.
pub strlen_lem : (k n : ℕ) (m : Mem) (str : ℕ) → IsString m str n → n < k → strlen k m str ≡ some n
unfolding strlen
strlen_lem zero n m str string enough = absurd (omega arith)
strlen_lem (suc k) zero m str (chars, end) enough =
    let here : str + 0 ≡ str = omega arith in
    let empty : (m str == 0) ≡ true = ground (arith, ap m here, end) in rw (empty, strlen) refl
strlen_lem (suc k) (suc n) m str (chars, end) enough =
    let here : str + 0 ≡ str = omega arith in
    let first = chars 0 (omega arith) in
    let more : (m str == 0) ≡ false = ground (arith, ap m here, first) in
    let rest =
      strlen_lem k n m (str + 1)
        (
          (λ i lt. subst (λ a. m a ≢ 0) (omega arith) (chars (suc i) (omega arith))),
          ap m (omega arith) ∙ end,
        )
        (omega arith) in
    rw (more, rest, strlen) refl
