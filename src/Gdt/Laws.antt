-- ===== src/Gdt/Laws.antt =====
-- A descriptor read the way the processor reads it gives back what was set.
use fantom_os.Base.{
  ℕ, ◌+◌, ◌*◌, ◌/◌, ◌%◌, ◌^◌, ◌<◌, ◌≡◌, refl, true, arith, ◌==◌, ==_iff, bit_and, bit_or,
}
use fantom_os.Base.Bits.{every, every_at}
use fantom_os.Gdt.{Segment, segment}

-- the base, the limit and the flags that the processor puts together
abbrev pub base_of : Segment → ℕ
base_of s = s.base_low + 2 ^ 16 * s.base_middle + 2 ^ 24 * s.base_high

abbrev pub limit_of : Segment → ℕ
limit_of s = s.limit_low + 2 ^ 16 * (s.granularity % 16)

abbrev pub flags_of : Segment → ℕ
flags_of s = s.granularity / 16

joined : every (λ a. every (λ g. bit_or a (bit_and g 0xF0) == a + 16 * (g / 16)) 256) 16 ≡ true
unfolding every
joined = refl

bit_or-bit_and : (a g : ℕ) → a < 16 → g < 256 → bit_or a (bit_and g 0xF0) ≡ a + 16 * (g / 16)
bit_or-bit_and a g ha hg =
    let row =
      every_at (λ a. every (λ g. bit_or a (bit_and g 0xF0) == a + 16 * (g / 16)) 256) 16 a ha
        joined in
    (==_iff _ _).0 (every_at (λ g. bit_or a (bit_and g 0xF0) == a + 16 * (g / 16)) 256 g hg row)

-- What a descriptor says.
pub record Describes (s : Segment) (b l a g : ℕ) : Type 0 where
  pub base : base_of s ≡ b % 2 ^ 32
  pub limit : limit_of s ≡ l % 2 ^ 20
  pub access_byte : s.access ≡ a
  pub flags : flags_of s ≡ g / 16

-- For a byte of flags, the fields of a descriptor put together as the processor does give back
-- the base on 32 bits, the limit on 20 bits, the access byte and the upper four flags.
pub segment-Describes :
    (base limit access gran : ℕ)
    → gran < 256
    → Describes (segment base limit access gran) base limit access gran
unfolding segment
segment-Describes base limit access gran h =
    let joint = bit_or-bit_and (limit / 2 ^ 16 % 16) gran (omega arith) h in
    record {
      base = omega arith;
      limit = omega (arith, joint);
      access_byte = refl;
      flags = omega (arith, joint);
    }
