-- ===== src/Bitmap.antt =====
-- src/core/data_structs/Bitmap.c: bits packed in memory, with no bounds check.
pub mod Laws
use fantom_os.Base.{ℕ, ◌+◌, ◌/◌, ◌%◌, ◌^◌, Bool, u32}
use fantom_os.Base.Bits
use fantom_os.Memory.{Mem, store8, memset}

-- `bitmap_t`
pub record Bitmap : Type 0 where
  pub base : ℕ
  pub bytes : ℕ

-- the address of the byte that holds a bit
abbrev pub byte_of : Bitmap → ℕ → ℕ
byte_of b bit = u32 (b.base + bit / 8)

-- The C function returns the masked byte; its callers test it against zero.
unfoldable pub check_bit : Bitmap → Mem → ℕ → Bool
check_bit b m bit = Bits.test_bit (m (byte_of b bit)) (bit % 8)

unfoldable pub set_bit : Bitmap → Mem → ℕ → Mem
set_bit b m bit = store8 m (byte_of b bit) (Bits.set_bit (m (byte_of b bit)) (bit % 8))

unfoldable pub clear_bit : Bitmap → Mem → ℕ → Mem
clear_bit b m bit = store8 m (byte_of b bit) (Bits.clear_bit (m (byte_of b bit)) (bit % 8))

unfoldable pub clear_all : Bitmap → Mem → Mem
clear_all b m = memset m b.base 0 b.bytes

-- `memset` takes an `unsigned char`, so 0xFFFFFFFF arrives as 0xFF.
unfoldable pub set_all : Bitmap → Mem → Mem
set_all b m = memset m b.base (0xFFFFFFFF % 256) b.bytes
