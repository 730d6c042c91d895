-- ===== src/Memory/Laws.antt =====
-- What `memset`, `memcpy` and a 32-bit access read and write.
use fantom_os.Base.{
  ℕ, zero, suc, ◌+◌, ◌-◌, ◌^◌, ◌≤◌, ◌<◌, ◌≡◌, ◌≢◌, ◌⊎◌, ap, arith, ltb, leb, ◌==◌, ◌&&◌,
  if◌then◌else◌, u8, u32,
}
use fantom_os.Memory.{Mem, IsBytes, store8, store32, load32, memset, memcpy}

pub store8-IsBytes : (m : Mem) (a v : ℕ) → IsBytes m → IsBytes (store8 m a v)
unfolding store8
store8-IsBytes m a v h p = ground (arith, h p)

pub store8_self : (m : Mem) (a v : ℕ) → v < 256 → store8 m a v a ≡ v
unfolding store8
store8_self m a v h = ground arith

pub store8_ne : (m : Mem) (a v p : ℕ) → a ≢ p → store8 m a v p ≡ m p
unfolding store8
store8_ne m a v p h = ground arith

-- A word that lies below 2 ^ 32 is read back as it was written.
pub load32-store32 :
    (m : Mem) (a v : ℕ) → a + 4 ≤ 2 ^ 32 → v < 2 ^ 32 → load32 (store32 m a v) a ≡ v
unfolding load32 store32
load32-store32 m a v h hv = ground arith

-- A word write leaves every byte outside its four.
pub store32_outside :
    (m : Mem) (a v p : ℕ) → a + 4 ≤ 2 ^ 32 → (p < a) ⊎ (a + 4 ≤ p) → store32 m a v p ≡ m p
unfolding store32
store32_outside m a v p h o = ground arith

pub store32-IsBytes : (m : Mem) (a v : ℕ) → IsBytes m → IsBytes (store32 m a v)
unfolding store32
store32-IsBytes m a v h p = ground (arith, h p)

-- Two words that do not overlap are independent.
pub load32-store32_ne :
    (m : Mem) (a b v : ℕ)
    → a + 4 ≤ 2 ^ 32
    → b + 4 ≤ 2 ^ 32
    → (b + 4 ≤ a) ⊎ (a + 4 ≤ b)
    → load32 (store32 m a v) b ≡ load32 m b
unfolding load32
load32-store32_ne m a b v ha hb o = ground (
  arith,
  store32_outside m a v b,
  store32_outside m a v (u32 (b + 1)),
  store32_outside m a v (u32 (b + 2)),
  store32_outside m a v (u32 (b + 3)),
)

pub load32-lt : (m : Mem) (a : ℕ) → IsBytes m → load32 m a < 2 ^ 32
unfolding load32
load32-lt m a h = omega (arith, h a, h (u32 (a + 1)), h (u32 (a + 2)), h (u32 (a + 3)))

-- `memset` sets the `len` bytes from `dest` on and nothing else, if the area does not wrap.
pub memset_lem :
    (m : Mem) (dest val len p : ℕ)
    → dest + len ≤ 2 ^ 32
    → memset m dest val len p ≡ (if leb dest p && ltb p (dest + len) then u8 val else m p)
unfolding memset
memset_lem m dest val zero p h = ground arith
memset_lem m dest val (suc zero) p h = ground arith
memset_lem m dest val (suc (suc len)) p h =
    ground
      (arith, memset_lem (λ q. if dest == q then u8 val else m q) (u32 (dest + 1)) val (suc len) p)

pub memset-IsBytes : (m : Mem) (dest val len : ℕ) → IsBytes m → IsBytes (memset m dest val len)
unfolding memset
memset-IsBytes m dest val zero h = h
memset-IsBytes m dest val (suc len) h =
    memset-IsBytes (store8 m dest val) (u32 (dest + 1)) val len (store8-IsBytes m dest val h)

-- memcpy copies the bytes as they were, if neither area wraps and it does not write ahead into
-- what it has still to read, and changes nothing outside the destination.
pub memcpy_lem :
    (m : Mem) (dest src len p : ℕ)
    → IsBytes m
    → dest + len ≤ 2 ^ 32
    → src + len ≤ 2 ^ 32
    → (dest ≤ src) ⊎ (src + len ≤ dest)
    → memcpy m dest src len p
      ≡ (if leb dest p && ltb p (dest + len) then m (src + (p - dest)) else m p)
unfolding memcpy
memcpy_lem m dest src zero p b hd hs o = ground arith
memcpy_lem m dest src (suc zero) p b hd hs o = ground (arith, b src, shift)
  where
    shift : dest ≡ p → m (src + (p - dest)) ≡ m src
    shift e = ap m (omega arith)
memcpy_lem m dest src (suc (suc len)) p b hd hs o = ground (
  arith,
  b src,
  shift,
  away,
  first,
  memcpy_lem (store8 m dest (m src)) (u32 (dest + 1)) (u32 (src + 1)) (suc len) p
      (store8-IsBytes m dest (m src) b) (omega arith) (omega arith) (omega arith),
)
  where
    first : dest ≡ p → m (src + (p - dest)) ≡ m src
    first e = ap m (omega arith)

    shift : dest < p → m (u32 (src + 1) + (p - u32 (dest + 1))) ≡ m (src + (p - dest))
    shift e = ap m (omega arith)

    away : dest < p → p < dest + suc (suc len) → dest ≢ u32 (src + 1) + (p - u32 (dest + 1))
    away e f = omega arith
