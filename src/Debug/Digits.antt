-- ===== src/Debug/Digits.antt =====
-- The digits of a number in a buffer, and the loop that writes them.
use fantom_os.Base.{
  ℕ, zero, suc, ◌+◌, ◌-◌, ◌*◌, ◌/◌, ◌%◌, ◌^◌, ◌≤◌, ◌<◌, ◌≡◌, ◌≢◌, ◌⊎◌, ◌∙◌, ap, sym, subst, refl,
  inl, inr, Option, some, leb, ◌==◌, if◌then◌else◌, u8, arith, Bool-cases,
}
use fantom_os.Debug.{Buffer, store, digit, write_digits}
use native.Mathlib.Nat.{mod-lt, div-mul-le_self, div-add-mod', mul-le-mul_left}

-- the number that a character of a numeral stands for
abbrev pub digit_value : ℕ → ℕ
digit_value c = if leb c b'9' then c - b'0' else c - b'A' + 10

digit_value-digit : (d : ℕ) → d < 16 → digit_value (digit d) ≡ d
unfolding digit
digit_value-digit d h = ground arith

-- a character from '0' to '9' or from 'A' to 'F' that stands for a number below the base
pub record IsDigit (base c : ℕ) : Type 0 where
  pub known : ((b'0' ≤ c) × (c ≤ b'9')) ⊎ ((b'A' ≤ c) × (c ≤ b'F'))
  pub value : digit_value c < base

digit_known :
    (d : ℕ) → d < 16 → ((b'0' ≤ digit d) × (digit d ≤ b'9')) ⊎ ((b'A' ≤ digit d) × (digit d ≤ b'F'))
unfolding digit
digit_known d h = ground arith

digit-IsDigit : (base d : ℕ) → d < base → base ≤ 16 → IsDigit base (digit d)
digit-IsDigit base d h top = record {
  known = digit_known d (omega (arith, h, top));
  value = rw (digit_value-digit d (omega (arith, h, top))) h;
}

pub positive_of_IsDigit : {base c : ℕ} → IsDigit base c → 0 < c
positive_of_IsDigit d = let k = d.known in ground (arith, k)

-- the value of `n` digits from the place `i` on, the lowest first
abbrev pub low_first : ℕ → Buffer → ℕ → ℕ → ℕ
low_first base b i zero = 0
low_first base b i (suc n) = low_first base b (i + 1) n * base + digit_value (b i)

-- the value of the first `n` digits, the highest first
abbrev pub high_first : ℕ → Buffer → ℕ → ℕ
high_first base b zero = 0
high_first base b (suc n) = high_first base b n * base + digit_value (b n)

-- What the loop leaves: `count` digits from `pos` on, whose value is `value`, and nothing else.
pub record Written (fuel : ℕ) (b : Buffer) (pos value base : ℕ) (r : Option (Buffer × ℕ))
    : Type 0 where
  pub count : ℕ
  pub buffer : Buffer
  pub returns : r ≡ some (buffer, pos + count)
  pub bound : count ≤ fuel
  pub stands_for : low_first base buffer pos count ≡ value
  pub below : (j : ℕ) → j < pos → buffer j ≡ b j
  pub digits : (j : ℕ) → pos ≤ j → j < pos + count → IsDigit base (buffer j)
  pub top : 0 < count → buffer (pos + count - 1) ≢ b'0'

pub store_here : (b : Buffer) (i c : ℕ) → store b i c i ≡ c
unfolding store
store_here b i c = ground arith

pub store_other : (b : Buffer) (i c j : ℕ) → i ≢ j → store b i c j ≡ b j
unfolding store
store_other b i c j apart = ground (arith, apart)

-- a property of the first place and of those behind it
split_first : (P : ℕ → Type 0) {i : ℕ} (j : ℕ) → i ≤ j → P i → (i + 1 ≤ j → P j) → P j
split_first P {i} j low first later = elim (eq_or_later i j low) [
  | inl same ↦ subst P same first
  | inr after ↦ later after
]
  where
    eq_or_later : (i j : ℕ) → i ≤ j → (i ≡ j) ⊎ (i + 1 ≤ j)
    eq_or_later i j h = omega (arith, h)

-- no digits read as 0
nothing_left : (base : ℕ) (b : Buffer) (i n : ℕ) → n ≡ 0 → low_first base b i n ≡ 0
nothing_left base b i zero h = refl
nothing_left base b i (suc n) h = absurd (omega (arith, h))

digit-zero : (d : ℕ) → d < 16 → 0 < d → digit d ≢ b'0'
unfolding digit
digit-zero d h more = ground arith

-- The digit on top is the last one's, or the first one, which is not 0 if no other follows.
top_digit :
    (d : ℕ) (b : Buffer) (pos n : ℕ)
    → b pos ≡ digit d
    → (0 < n → b (pos + 1 + n - 1) ≢ b'0')
    → d < 16
    → (n ≡ 0 → 0 < d)
    → b (pos + suc n - 1) ≢ b'0'
top_digit d b pos zero here later small more =
    let place : pos + 1 - 1 ≡ pos = omega arith in rw (place, here) (digit-zero d small (more refl))
top_digit d b pos (suc n) here later small more =
    let place : pos + 1 + suc n - 1 ≡ pos + suc (suc n) - 1 = omega arith in
    subst (λ (i : ℕ). b i ≢ b'0') place (later (omega arith))

half_bound : (v b n : ℕ) → 2 ≤ b → v < 2 ^ suc n → v / b < 2 ^ n
half_bound v b n h small =
    let twice : v / b * 2 ≤ v / b * b = mul-le-mul_left (v / b) h in
    omega (arith, twice, div-mul-le_self v b)

pub write_digits-Written :
    (fuel : ℕ) (b : Buffer) (pos value base : ℕ)
    → 2 ≤ base
    → base ≤ 16
    → value < 2 ^ fuel
    → pos + fuel < 256
    → Written fuel b pos value base (write_digits fuel b pos value base)
unfolding write_digits
write_digits-Written zero b pos value base two top small room = record {
  count = 0;
  buffer = b;
  returns = ground (arith, small);
  bound = omega arith;
  stands_for = omega arith;
  below = λ j _. refl;
  digits = λ j low high. absurd (omega (arith, low, high));
  top = λ some_digit. absurd (omega (arith, some_digit));
}
write_digits-Written (suc n) b pos value base two top small room = elim (Bool-cases (value == 0)) [
  | inl ended ↦ record {
    count = 0;
    buffer = b;
    returns = ground (arith, ended);
    bound = omega arith;
    stands_for = ground (arith, ended);
    below = λ j _. refl;
    digits = λ j low high. absurd (omega (arith, low, high));
    top = λ some_digit. absurd (omega (arith, some_digit));
  }
  | inr more ↦
      let b' = store b pos (digit (value % base)) in
      let digit_bound : value % base < base = mod-lt value (omega (arith, two)) in
      let later =
        write_digits-Written n b' (pos + 1) (value / base) base two top
          (half_bound value base n two small) (omega (arith, room)) in
      let here : later.buffer pos ≡ digit (value % base) =
        later.below pos (omega arith) ∙ store_here b pos (digit (value % base)) in
      let wrap : u8 (pos + 1) ≡ pos + 1 = omega (arith, room) in
      record {
        count = suc later.count;
        buffer = later.buffer;
        returns = rw (wrap, more, later.returns) (ground arith);
        bound = omega (arith, later.bound);
        stands_for = omega (
          arith,
          ap (λ (q : ℕ). q * base) later.stands_for,
          ap digit_value here,
          digit_value-digit (value % base) (omega (arith, digit_bound, top)),
          div-add-mod' value base,
        );
        below = λ j h.
            later.below j (omega (arith, h))
            ∙ store_other b pos (digit (value % base)) j (omega (arith, h));
        digits = λ j low high.
            split_first (λ (j : ℕ). IsDigit base (later.buffer j)) j low
              (subst (IsDigit base) (sym here) (digit-IsDigit base (value % base) digit_bound top))
              λ after. later.digits j after (omega (arith, high));
        top = λ _.
            top_digit (value % base) later.buffer pos later.count here later.top
              (omega (arith, digit_bound, top))
              λ last.
                let rest = nothing_left base later.buffer (pos + 1) later.count last in
                ground (arith, more, rest, later.stands_for, div-add-mod' value base);
      }
]
