-- ===== src/Base/Bits.antt =====
-- The bits of a byte: `b & (1 << k)`, `b |= 1 << k` and `b &= ~(1 << k)`. The laws are checked by
-- evaluation over every byte and every pair of bits.
use Prim.Native.Nat.{ℕ, zero, suc, ◌-◌, ◌^◌, ◌<◌, bit_and, bit_or}
use mathlib.Core.Path.{◌≡◌, refl}
use mathlib.Core.Bool.{Bool, true, false, not, ◌&&◌}
use native.Mathlib.Omega.{arith}
use fantom_os.Base.Tests.{◌==◌, if◌then◌else◌, u8}

-- A test that succeeds on all numbers up to a bound, found out by running it.
unfoldable pub every : (ℕ → Bool) → ℕ → Bool
every test zero = true
every test (suc size) = every test size && test size

pub every_at : (test : ℕ → Bool) (size i : ℕ) → i < size → every test size ≡ true → test i ≡ true
unfolding every
every_at test zero i inside all = absurd (omega arith)
every_at test (suc size) i inside all = ground (arith, every_at test size i)

-- `b & (0x1 << k)`, as a truth value
unfoldable pub test_bit : ℕ → ℕ → Bool
test_bit b k = not (bit_and b (2 ^ k) == 0)

-- `b |= (0x1 << k)`, stored in a byte
unfoldable pub set_bit : ℕ → ℕ → ℕ
set_bit b k = u8 (bit_or b (2 ^ k))

-- `b &= ~(0x1 << k)`, the complement taken on 32 bits, stored in a byte
unfoldable pub clear_bit : ℕ → ℕ → ℕ
clear_bit b k = u8 (bit_and b (2 ^ 32 - 1 - 2 ^ k))

-- Equality of truth values, for the tables.
unfoldable pub eqb : Bool → Bool → Bool
eqb true b = b
eqb false b = not b

pub eqb→eq : (a b : Bool) → eqb a b ≡ true → a ≡ b
unfolding eqb
eqb→eq true b h = ground arith
eqb→eq false b h = ground arith

abbrev for_bits : (ℕ → ℕ → ℕ → Bool) → Bool
for_bits p = every (λ k. every (λ j. every (λ b. p b k j) 256) 8) 8

for_bits_sound :
    (p : ℕ → ℕ → ℕ → Bool) (b k j : ℕ)
    → for_bits p ≡ true
    → b < 256
    → k < 8
    → j < 8
    → p b k j ≡ true
for_bits_sound p b k j h hb hk hj =
    let row = every_at (λ k. every (λ j. every (λ b. p b k j) 256) 8) 8 k hk h in
    let column = every_at (λ j. every (λ b. p b k j) 256) 8 j hj row in
    every_at (λ b. p b k j) 256 b hb column

abbrev set_law : ℕ → ℕ → ℕ → Bool
set_law b k j = eqb (test_bit (set_bit b k) j) (if k == j then true else test_bit b j)

abbrev clear_law : ℕ → ℕ → ℕ → Bool
clear_law b k j = eqb (test_bit (clear_bit b k) j) (if k == j then false else test_bit b j)

set_table : for_bits set_law ≡ true
unfolding every eqb test_bit set_bit
set_table = refl

clear_table : for_bits clear_law ≡ true
unfolding every eqb test_bit clear_bit
clear_table = refl

-- Setting bit `k` of a byte sets it and leaves the other bits.
pub test_bit-set_bit :
    (b k j : ℕ)
    → b < 256
    → k < 8
    → j < 8
    → test_bit (set_bit b k) j ≡ (if k == j then true else test_bit b j)
test_bit-set_bit b k j hb hk hj = eqb→eq _ _ (for_bits_sound set_law b k j set_table hb hk hj)

-- Clearing bit `k` of a byte clears it and leaves the other bits.
pub test_bit-clear_bit :
    (b k j : ℕ)
    → b < 256
    → k < 8
    → j < 8
    → test_bit (clear_bit b k) j ≡ (if k == j then false else test_bit b j)
test_bit-clear_bit b k j hb hk hj = eqb→eq _ _ (for_bits_sound clear_law b k j clear_table hb hk hj)

full_table : every (λ k. test_bit 255 k) 8 ≡ true
unfolding every test_bit
full_table = refl

-- Every bit of 0xFF is set.
pub test_bit-full : (k : ℕ) → k < 8 → test_bit 255 k ≡ true
test_bit-full k h = every_at (λ k. test_bit 255 k) 8 k h full_table

zero_table : every (λ k. not (test_bit 0 k)) 8 ≡ true
unfolding every test_bit
zero_table = refl

-- No bit of 0 is set.
pub test_bit-zero : (k : ℕ) → k < 8 → test_bit 0 k ≡ false
test_bit-zero k h =
    let none_set : not (test_bit 0 k) ≡ true =
      every_at (λ k. not (test_bit 0 k)) 8 k h zero_table in
    ground arith

pub set_bit-lt : (b k : ℕ) → set_bit b k < 256
unfolding set_bit
set_bit-lt b k = omega arith

pub clear_bit-lt : (b k : ℕ) → clear_bit b k < 256
unfolding clear_bit
clear_bit-lt b k = omega arith
