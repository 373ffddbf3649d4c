-- ===== src/Atomic/Order.antt =====
-- The retried operations of kernel/include/cpu/atomic.h and kernel/src/mm/page.c under every
-- schedule: they take effect one at a time.
use learning_os.Base.{
  ℕ, ◌≤◌, Option, none, some, List, [], ◌∷◌, ◌==◌, if◌then◌else◌, ◌≡◌, refl, ap, arith, times,
  Bool-cases, inl, inr, ==_iff,
}
use learning_os.Atomic.{
  Operation, new_value, Pc, start, retry, finished, advance, System, turn, run, initial,
}

-- What the operations of `order` make of `word` one behind the other, the latest one first.
unfoldable pub value_after : (ℕ → Operation) → ℕ → List ℕ → ℕ
value_after ops word [] = word
value_after ops word (i ∷ order) = new_value (ops i) (value_after ops word order)

-- The value that processor `i` produces where its turn comes in `order`.
unfoldable pub result_in : (ℕ → Operation) → ℕ → List ℕ → ℕ → Option ℕ
result_in ops word [] i = none
result_in ops word (j ∷ order) i =
    if i == j then some (value_after ops word (j ∷ order)) else result_in ops word order i

-- The value that a processor has produced.
unfoldable pub result : Pc → Option ℕ
result start = none
result (retry current) = none
result (finished value) = some value

-- The state is the one that the operations of `order` leave one behind the other.
pub record Explains (ops : ℕ → Operation) (word : ℕ) (order : List ℕ) (s : System) : Type 0 where
  pub same_word : s.word ≡ value_after ops word order
  pub same_results : (i : ℕ) → result (s.pc i) ≡ result_in ops word order i
  pub once : (i : ℕ) → times i order ≤ 1

times-of-none :
    (ops : ℕ → Operation) (word : ℕ) (order : List ℕ) (i : ℕ)
    → result_in ops word order i ≡ none
    → times i order ≡ 0
unfolding times result_in
times-of-none ops word [] i h = refl
times-of-none ops word (j ∷ order) i h = ground (arith, times-of-none ops word order i)

-- A turn that does not exchange keeps the word and the results.
keep :
    (ops : ℕ → Operation) (word : ℕ) (order : List ℕ) (s : System) (i : ℕ) (p : Pc)
    → result p ≡ result (s.pc i)
    → Explains ops word order s
    → Explains ops word order (record { word = s.word; pc = λ j. if j == i then p else s.pc j })
keep ops word order s i p same e = record {
  same_word = e.same_word;
  same_results = λ j. ground (arith, e.same_results j);
  once = e.once;
}

exchange :
    (ops : ℕ → Operation) (word : ℕ) (order : List ℕ) (s : System) (i : ℕ)
    → result (s.pc i) ≡ none
    → Explains ops word order s
    → Explains ops word (i ∷ order) (record {
      word = new_value (ops i) s.word;
      pc = λ j. if j == i then finished (new_value (ops i) s.word) else s.pc j;
    })
unfolding value_after result_in times result
exchange ops word order s i fresh e = record {
  same_word = ap (new_value (ops i)) e.same_word;
  same_results = λ j. ground (arith, e.same_results j, e.same_word);
  once = λ j. ground (arith, e.once j, times-of-none ops word order i, e.same_results i);
}

-- A turn adds at most the processor that took it to the order.
turn_order :
    (ops : ℕ → Operation) (word : ℕ) (order : List ℕ) (s : System) (i : ℕ) (p : Pc)
    → s.pc i ≡ p
    → Explains ops word order s
    → (order' : List ℕ) × Explains ops word order' (turn ops i s)
unfolding turn advance result
turn_order ops word order s i start at e =
    (order, rw at (keep ops word order s i (retry s.word) (rw at refl) e))
turn_order ops word order s i (finished v) at e =
    (order, rw at (keep ops word order s i (finished v) (rw at refl) e))
turn_order ops word order s i (retry current) at e = elim (Bool-cases (s.word == current)) [
  | inl hit ↦
      let same = (==_iff s.word current).0 hit in
      (i ∷ order, rw (at, hit, ← same) (exchange ops word order s i (rw at refl) e))
  | inr miss ↦ (order, rw (at, miss) (keep ops word order s i (retry s.word) (rw at refl) e))
]

-- Under every schedule there is an order of distinct processors such that the word is what their
-- operations make of its first value one behind the other, and each processor that has finished
-- has produced the value that the operations up to its own make, while the others have changed
-- nothing.
pub run-Explains :
    (ops : ℕ → Operation) (word : ℕ) (schedule : List ℕ)
    → (order : List ℕ) × Explains ops word order (run ops schedule (initial word))
unfolding run value_after result_in times result
run-Explains ops word [] =
    ([], record { same_word = refl; same_results = λ i. refl; once = λ i. omega arith })
run-Explains ops word (i ∷ schedule) =
    let s = run ops schedule (initial word) in
    let (order, e) = run-Explains ops word schedule in turn_order ops word order s i (s.pc i) refl e
