-- ===== src/Strings/Fill.antt =====
-- What `memset` of kernel/src/utility/strings.c leaves in memory.
use learning_os.Base.{
  ℕ, zero, suc, ◌+◌, ◌≡◌, ◌&&◌, arith, ltb, leb, if◌then◌else◌, Mem, store, IsBytes, ◌<◌,
}
use learning_os.Strings.{memset}

-- `memset` writes `value` to the `n` bytes from `dest` on, and to no other byte.
pub memset_lem :
    (m : Mem) (dest value n a : ℕ)
    → memset m dest value n a ≡ (if leb dest a && ltb a (dest + n) then value else m a)
unfolding memset store
memset_lem m dest value zero a = ground arith
memset_lem m dest value (suc n) a =
    ground (arith, memset_lem (store m dest value) (dest + 1) value n a)

pub memset-IsBytes :
    (m : Mem) (dest value n : ℕ) → IsBytes m → value < 256 → IsBytes (memset m dest value n)
memset-IsBytes m dest value n bytes h a = ground (arith, memset_lem m dest value n a, bytes a)
