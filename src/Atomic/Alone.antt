-- ===== src/Atomic/Alone.antt =====
-- The retried operations of kernel/include/cpu/atomic.h: a processor that runs alone finishes.
use learning_os.Base.{ℕ, suc, some, List, ◌∷◌, ◌==◌, ◌≡◌, refl, arith, Bool-cases, inl, inr}
use learning_os.Atomic.{
  Operation, new_value, Pc, start, retry, finished, advance, System, turn, run, initial, retry_loop,
}

-- A turn of one processor, as its own accesses see it.
turn_self :
    (ops : ℕ → Operation) (s : System) (i : ℕ)
    → ((turn ops i s).pc i ≡ (advance (ops i) (s.pc i) s.word).0)
      × ((turn ops i s).word ≡ (advance (ops i) (s.pc i) s.word).1)
unfolding turn
turn_self ops s i = (ground arith, refl)

two_accesses :
    (op : Operation) (p : Pc) (word : ℕ)
    → (v : ℕ) × ((advance op (advance op p word).0 (advance op p word).1).0 ≡ finished v)
unfolding advance
two_accesses op start word = (new_value op word, ground arith)
two_accesses op (finished v) word = (v, refl)
two_accesses op (retry current) word = elim (Bool-cases (word == current)) [
  | inl hit ↦ (new_value op word, rw hit refl)
  | inr miss ↦ (new_value op word, ground arith)
]

-- Whatever the others have done before, a processor that takes two turns without a turn of
-- another in between has finished.
pub two_turns :
    (ops : ℕ → Operation) (word : ℕ) (schedule : List ℕ) (i : ℕ)
    → (v : ℕ) × ((run ops (i ∷ i ∷ schedule) (initial word)).pc i ≡ finished v)
unfolding run
two_turns ops word schedule i =
    let s = run ops schedule (initial word) in
    let (v, e) = two_accesses (ops i) (s.pc i) s.word in
    let (pc1, word1) = turn_self ops s i in
    let (pc2, word2) = turn_self ops (turn ops i s) i in (v, rw (pc2, pc1, word1) e)

-- `counter16_increment_atomic`, `set_page_flags_atomic` and `unset_page_flags_atomic` without
-- interference, whatever value they start from: two rounds give the new value of the word.
pub retry_loop_lem :
    (k : ℕ) (op : Operation) (current word : ℕ)
    → retry_loop (suc (suc k)) op current word ≡ some (new_value op word, new_value op word)
unfolding retry_loop
retry_loop_lem k op current word = ground arith
