-- ===== src/Memory.antt =====
-- Byte memory, and `memset` and `memcpy` of src/core/debug/Common.c. A pointer is a 32-bit address,
-- so a walk over memory wraps at 2 ^ 32.
pub mod Laws
use fantom_os.Base.{ℕ, zero, suc, ◌+◌, ◌*◌, ◌/◌, ◌^◌, ◌<◌, ◌==◌, if◌then◌else◌, u8, u32}

-- the byte at each address
abbrev pub Mem : Type 0
Mem = ℕ → ℕ

abbrev pub IsBytes : Mem → Type 0
IsBytes m = (a : ℕ) → m a < 256

-- `*(uint8_t *)a = v`
unfoldable pub store8 : Mem → ℕ → ℕ → Mem
store8 m a v p = if a == p then u8 v else m p

-- `*(uint32_t *)a = v`, least byte first
unfoldable pub store32 : Mem → ℕ → ℕ → Mem
unfolding store8
store32 m a v =
    store8 (store8 (store8 (store8 m a v) (u32 (a + 1)) (v / 2 ^ 8)) (u32 (a + 2)) (v / 2 ^ 16))
      (u32 (a + 3)) (v / 2 ^ 24)

-- `*(uint32_t *)a`
unfoldable pub load32 : Mem → ℕ → ℕ
load32 m a = m a + 2 ^ 8 * m (u32 (a + 1)) + 2 ^ 16 * m (u32 (a + 2)) + 2 ^ 24 * m (u32 (a + 3))

-- The loop runs `len` rounds; `val` is an `unsigned char`.
unfoldable pub memset : Mem → ℕ → ℕ → ℕ → Mem
unfolding store8
memset m dest val zero = m
memset m dest val (suc len) = memset (store8 m dest val) (u32 (dest + 1)) val len

-- `*d++ = *s++`, in ascending order
unfoldable pub memcpy : Mem → ℕ → ℕ → ℕ → Mem
unfolding store8
memcpy m dest src zero = m
memcpy m dest src (suc len) = memcpy (store8 m dest (m src)) (u32 (dest + 1)) (u32 (src + 1)) len
