-- ===== src/Bitmap/Laws.antt =====
-- A bitmap as a set of bits.
use fantom_os.Base.{
  ℕ, ◌+◌, ◌*◌, ◌/◌, ◌%◌, ◌^◌, ◌≤◌, ◌<◌, ◌≡◌, ◌≢◌, true, false, arith, ◌==◌, if◌then◌else◌,
}
use fantom_os.Base.Bits
use fantom_os.Memory.{Mem, IsBytes, store8}
use fantom_os.Memory.Laws.{store8-IsBytes, store8_ne, memset_lem, memset-IsBytes}
use fantom_os.Bitmap.{Bitmap, byte_of, check_bit, set_bit, clear_bit, clear_all, set_all}

-- The bytes of the map do not wrap round the address space.
abbrev pub Fits : Bitmap → Type 0
Fits b = b.base + b.bytes ≤ 2 ^ 32

module _ (b : Bitmap) (m : Mem) (i : ℕ) where
  pub set_bit-IsBytes : IsBytes m → IsBytes (set_bit b m i)
  unfolding set_bit
  set_bit-IsBytes = store8-IsBytes m _ _

  pub clear_bit-IsBytes : IsBytes m → IsBytes (clear_bit b m i)
  unfolding clear_bit
  clear_bit-IsBytes = store8-IsBytes m _ _

  -- Only the byte that holds the bit is written.
  pub set_bit_outside : (p : ℕ) → byte_of b i ≢ p → set_bit b m i p ≡ m p
  unfolding set_bit
  set_bit_outside p h = store8_ne m _ _ p h

  pub clear_bit_outside : (p : ℕ) → byte_of b i ≢ p → clear_bit b m i p ≡ m p
  unfolding clear_bit
  clear_bit_outside p h = store8_ne m _ _ p h

  -- In a byte map that fits the address space, setting a bit sets it and no other bit of the
  -- map.
  pub check_bit-set_bit :
      (j : ℕ)
      → IsBytes m
      → Fits b
      → i < b.bytes * 8
      → j < b.bytes * 8
      → check_bit b (set_bit b m i) j ≡ (if i == j then true else check_bit b m j)
  unfolding check_bit set_bit store8
  check_bit-set_bit j h f hi hj = ground (
    arith,
    h (byte_of b i),
    Bits.set_bit-lt (m (byte_of b i)) (i % 8),
    Bits.test_bit-set_bit (m (byte_of b i)) (i % 8) (j % 8),
  )

  -- In a byte map that fits the address space, clearing a bit clears it and no other bit of the
  -- map.
  pub check_bit-clear_bit :
      (j : ℕ)
      → IsBytes m
      → Fits b
      → i < b.bytes * 8
      → j < b.bytes * 8
      → check_bit b (clear_bit b m i) j ≡ (if i == j then false else check_bit b m j)
  unfolding check_bit clear_bit store8
  check_bit-clear_bit j h f hi hj = ground (
    arith,
    h (byte_of b i),
    Bits.clear_bit-lt (m (byte_of b i)) (i % 8),
    Bits.test_bit-clear_bit (m (byte_of b i)) (i % 8) (j % 8),
  )

  -- A write past the end of the map, in the address space, leaves the map.
  pub check_bit-clear_bit_beyond :
      (j : ℕ)
      → Fits b
      → b.base + i / 8 < 2 ^ 32
      → b.bytes * 8 ≤ i
      → j < b.bytes * 8
      → check_bit b (clear_bit b m i) j ≡ check_bit b m j
  unfolding check_bit clear_bit store8
  check_bit-clear_bit_beyond j f hb hi hj = ground arith

module _ (b : Bitmap) (m : Mem) where
  pub set_all-IsBytes : IsBytes m → IsBytes (set_all b m)
  unfolding set_all
  set_all-IsBytes = memset-IsBytes m b.base _ b.bytes

  -- `Bitmap_setAll` sets every bit of the map.
  pub check_bit-set_all : (j : ℕ) → Fits b → j < b.bytes * 8 → check_bit b (set_all b m) j ≡ true
  unfolding check_bit set_all
  check_bit-set_all j f h =
      ground (arith, memset_lem m b.base 255 b.bytes (byte_of b j), Bits.test_bit-full (j % 8))

  -- `Bitmap_clearAll` clears every bit of the map.
  pub check_bit-clear_all :
      (j : ℕ) → Fits b → j < b.bytes * 8 → check_bit b (clear_all b m) j ≡ false
  unfolding check_bit clear_all
  check_bit-clear_all j f h =
      ground (arith, memset_lem m b.base 0 b.bytes (byte_of b j), Bits.test_bit-zero (j % 8))

-- The bits depend only on the bytes of the map.
pub check_bit_frame :
    (b : Bitmap) (m m' : Mem) (j : ℕ)
    → Fits b
    → j < b.bytes * 8
    → (b.base + j / 8 < b.base + b.bytes → m' (b.base + j / 8) ≡ m (b.base + j / 8))
    → check_bit b m' j ≡ check_bit b m j
unfolding check_bit
check_bit_frame b m m' j f h same = ground arith
