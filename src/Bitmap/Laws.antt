-- ===== src/Bitmap/Laws.antt =====
-- The operations of kernel/src/mm/bitmap.c act on single bits.
pub mod Bytes
use learning_os.Base.{
  ℕ, ◌+◌, ◌-◌, ◌*◌, ◌/◌, ◌%◌, ◌^◌, ◌<◌, ◌≤◌, ◌≡◌, ◌≢◌, refl, ◌∙◌, Bool, true, false, inl, inr, ◌⊎◌,
  bit_and, bit_or, ltb, leb, ◌==◌, if◌then◌else◌, Bool-cases, Mem, IsBytes, store, store_self,
  store_ne, store-IsBytes, u8, not32, int_bit, ◌>>>◌, arith,
}
use learning_os.Bitmap.{Bitmap, bmp_init, bmp_get_bit, bmp_set_bit, bmp_toggle_bit}
use learning_os.Strings.Fill.{memset_lem}
use Bytes.{
  turn_on, turn_off, int_bit-u8, mask_zero, mask_one, bit_at, bit_at-turn_on, bit_at-turn_off,
  bit_and-int_bit,
}

-- The bits that the bitmap has room for.
abbrev pub InRange : Bitmap → ℕ → Type 0
InRange bmp i = i / 8 < bmp.size_bytes

module _ (m : Mem) (bmp : Bitmap) where
  pub get_bit-in :
      (i : ℕ) → InRange bmp i → bmp_get_bit m bmp i ≡ bit_at (m (bmp.base + i / 8)) (i % 8)
  unfolding bmp_get_bit
  get_bit-in i h = ground arith

  -- A change of the byte that holds bit `i`, by which bit `i` becomes `v`.
  change_bit :
      (i j v byte : ℕ)
      → InRange bmp i
      → InRange bmp j
      → ((l : ℕ)
          → l < 8
          → bit_at byte l ≡ (if l == i % 8 then v else bit_at (m (bmp.base + i / 8)) l))
      → bmp_get_bit (store m (bmp.base + i / 8) byte) bmp j
        ≡ (if j == i then v else bmp_get_bit m bmp j)
  unfolding bmp_get_bit store
  change_bit i j v byte hi hj change = ground (arith, change (j % 8))

  module _ (bytes : IsBytes m) where
    -- In a memory of bytes, writing a bit `i` within the bitmap gives it the value (1 for any value
    -- above 0), keeps every other bit within the bitmap and reports success.
    pub get_bit-set_bit :
        (i j v : ℕ)
        → InRange bmp i
        → InRange bmp j
        → ((bmp_set_bit m bmp i v).0 ≡ 1)
          × (bmp_get_bit (bmp_set_bit m bmp i v).1 bmp j
              ≡ (if j == i then (if ltb 0 v then 1 else 0) else bmp_get_bit m bmp j))
    unfolding bmp_set_bit
    get_bit-set_bit i j v hi hj =
        let byte = m (bmp.base + i / 8) in
        let inside : leb bmp.size_bytes (i / 8) ≡ false = ground arith in
        elim (Bool-cases (ltb 0 v)) [
          | inl on ↦
              rw (inside, on)
                (
                  refl,
                  change_bit i j 1 (turn_on byte (i % 8)) hi hj
                      λ l hl. bit_at-turn_on byte (i % 8) l (bytes _) (omega arith) hl,
                )
          | inr off ↦
              rw (inside, off)
                (
                  refl,
                  change_bit i j 0 (turn_off byte (i % 8)) hi hj
                      λ l hl. bit_at-turn_off byte (i % 8) l (bytes _) (omega arith) hl,
                )
        ]

    -- In a memory of bytes, toggling a bit `i` within the bitmap flips it, keeps every other bit
    -- within the bitmap and returns the new bit.
    pub get_bit-toggle_bit :
        (i j : ℕ)
        → InRange bmp i
        → InRange bmp j
        → ((bmp_toggle_bit m bmp i).0 ≡ 1 - bmp_get_bit m bmp i)
          × (bmp_get_bit (bmp_toggle_bit m bmp i).1 bmp j
              ≡ (if j == i then 1 - bmp_get_bit m bmp j else bmp_get_bit m bmp j))
    unfolding bmp_toggle_bit
    get_bit-toggle_bit i j hi hj =
        let byte = m (bmp.base + i / 8) in
        let inside : leb bmp.size_bytes (i / 8) ≡ false = ground arith in
        let mask : u8 (int_bit (i % 8)) ≡ int_bit (i % 8) = int_bit-u8 (i % 8) (omega arith) in
        elim (Bool-cases (bit_and byte (int_bit (i % 8)) == 0)) [
          | inl was_off ↦
              let zero_bit : bmp_get_bit m bmp i ≡ 0 =
                get_bit-in i hi ∙ mask_zero byte (i % 8) (bytes _) (omega arith) was_off in
              rw (inside, mask, was_off)
                (
                  omega arith,
                  ground (
                    arith,
                    zero_bit,
                    change_bit i j 1 (turn_on byte (i % 8)) hi hj
                        λ l hl. bit_at-turn_on byte (i % 8) l (bytes _) (omega arith) hl,
                  ),
                )
          | inr was_on ↦
              let one_bit : bmp_get_bit m bmp i ≡ 1 =
                get_bit-in i hi ∙ mask_one byte (i % 8) (bytes _) (omega arith) was_on in
              rw (inside, mask, was_on)
                (
                  omega arith,
                  ground (
                    arith,
                    one_bit,
                    change_bit i j 0 (turn_off byte (i % 8)) hi hj
                        λ l hl. bit_at-turn_off byte (i % 8) l (bytes _) (omega arith) hl,
                  ),
                )
        ]

    pub set_bit-IsBytes : (i v : ℕ) → IsBytes (bmp_set_bit m bmp i v).1
    unfolding bmp_set_bit
    set_bit-IsBytes i v = ground (
      arith,
      store-IsBytes m (bmp.base + i / 8) (u8 (bit_or (m (bmp.base + i / 8)) (int_bit (i % 8)))),
      store-IsBytes m (bmp.base + i / 8)
          (u8 (bit_and (m (bmp.base + i / 8)) (not32 (int_bit (i % 8))))),
    )

module _ (m : Mem) (bmp : Bitmap) (i : ℕ) (out : bmp.size_bytes ≤ i / 8) where
  -- Behind the end of the bitmap every operation returns 0 and writes nothing.
  pub out_of_range :
      (v : ℕ)
      → (bmp_get_bit m bmp i ≡ 0)
        × (bmp_set_bit m bmp i v ≡ (0, m))
        × (bmp_toggle_bit m bmp i ≡ (0, m))
  unfolding bmp_get_bit bmp_set_bit bmp_toggle_bit
  out_of_range v =
      let outside : leb bmp.size_bytes (i / 8) ≡ true = ground arith in
      rw outside (refl, refl, refl)

-- `bmp_init` makes room for at least `size_bits` bits, clears them all and touches no memory
-- outside the bitmap.
pub init_clear :
    (m : Mem) (base size_bits : ℕ)
    → let (bmp, m') = bmp_init m base size_bits in
      ((i : ℕ) → i < size_bits → InRange bmp i)
      × ((i : ℕ) → bmp_get_bit m' bmp i ≡ 0)
      × ((a : ℕ) → (a < base) ⊎ (base + bmp.size_bytes ≤ a) → m' a ≡ m a)
unfolding bmp_init bmp_get_bit
init_clear m base size_bits = (
  λ i h. omega arith,
  λ i. ground (arith, memset_lem m base 0 ((size_bits + 7) / 8) (base + i / 8)),
  λ a h. ground (arith, memset_lem m base 0 ((size_bits + 7) / 8) a),
)
