-- ===== src/Atomic.antt =====
-- kernel/include/cpu/atomic.h, and the two loops of kernel/src/mm/page.c that change the flags of a
-- page: the compare-and-exchange, and the loops that retry it. Processors that run such loops on
-- one 16-bit word take turns, in any order; a turn is one access to the word.
pub mod Order
pub mod Alone
use learning_os.Base.{
  ℕ, zero, suc, ◌+◌, Option, none, some, List, [], ◌∷◌, bit_and, bit_or, ◌==◌, if◌then◌else◌, u16,
  not32,
}

-- `lock cmpxchg`: the value that the word had, and the word behind the exchange
abbrev pub cmpxchgw : ℕ → ℕ → ℕ → ℕ × ℕ
cmpxchgw word old_value new_value = (word, if word == old_value then new_value else word)

-- The three operations that retry. The increment of the counter is a signed 16-bit number, given
-- by its bits.
pub data Operation : Type 0 where
  increment : ℕ → Operation
  set_flags : ℕ → Operation
  unset_flags : ℕ → Operation

-- The value that an operation puts in the place of `current`.
unfoldable pub new_value : Operation → ℕ → ℕ
new_value (increment increment_by) current = u16 (current + increment_by)
new_value (set_flags flags) current = u16 (bit_or current flags)
new_value (unset_flags flags) current = u16 (bit_and current (not32 flags))

-- Where a processor stands: in front of its first read of the word, in front of an exchange for
-- the value that it read last, or behind the operation, which has put `value` in the word.
pub data Pc : Type 0 where
  start : Pc
  retry : ℕ → Pc
  finished : ℕ → Pc

-- One access to the word.
unfoldable pub advance : Operation → Pc → ℕ → Pc × ℕ
advance op start word = (retry word, word)
advance op (retry current) word =
    let (returned, word') = cmpxchgw word current (new_value op current) in
    (if returned == current then finished (new_value op returned) else retry returned, word')
advance op (finished value) word = (finished value, word)

pub record System : Type 0 where
  pub word : ℕ
  pub pc : ℕ → Pc

-- Processor `i` takes a turn.
unfoldable pub turn : (ℕ → Operation) → ℕ → System → System
turn ops i s =
    let (pc', word') = advance (ops i) (s.pc i) s.word in
    record { word = word'; pc = λ j. if j == i then pc' else s.pc j }

-- The turns of a schedule, the latest one first.
unfoldable pub run : (ℕ → Operation) → List ℕ → System → System
run ops [] s = s
run ops (i ∷ earlier) s = turn ops i (run ops earlier s)

abbrev pub initial : ℕ → System
initial word = record { word = word; pc = λ i. start }

-- `counter16_increment_atomic`, `set_page_flags_atomic` and `unset_page_flags_atomic` on a word
-- that no other processor changes: the first exchange succeeds.
unfoldable pub retry_loop : ℕ → Operation → ℕ → ℕ → Option (ℕ × ℕ)
retry_loop zero op current word = none
retry_loop (suc k) op current word =
    let (returned, word') = cmpxchgw word current (new_value op current) in
    let again = retry_loop k op returned word' in
    if returned == current then some (new_value op returned, word') else again
