-- ===== src/Tests/Math.antt =====
-- The theorems on kernel/include/utility/math.h at numbers.
use learning_os.Base.{ℕ, ◌^◌, ◌≤◌, arith}
use learning_os.Math.{bit_order}
use learning_os.Math.Order.{bit_order_lem}

bit_order_example : (100 ≤ 2 ^ bit_order 100) × ((o : ℕ) → 100 ≤ 2 ^ o → bit_order 100 ≤ o)
bit_order_example = bit_order_lem 100 (omega arith) (omega arith)
