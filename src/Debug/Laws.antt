-- ===== src/Debug/Laws.antt =====
-- A number that is printed reads back, and what formatted output hands to the serial port.
use fantom_os.Base.{
  ℕ, zero, suc, ◌+◌, ◌-◌, ◌/◌, ◌^◌, ◌≤◌, ◌<◌, ◌≡◌, ◌≢◌, ◌∙◌, ap, sym, subst, inl, inr, refl, false,
  ◌||◌, Option, some, ltb, ◌==◌, arith, Bool-cases,
}
use fantom_os.Debug.{Buffer, store, reverse_string, iota, finish}
use fantom_os.Debug.Digits.{
  IsDigit, low_first, high_first, Written, write_digits-Written, store_here, store_other,
}
use fantom_os.Debug.Reverse.{reverse_string_inside}

-- A buffer turned round: the lowest digit that was first is the last.
high_first-turned :
    (base n : ℕ) (b b' : Buffer) (k : ℕ)
    → k ≤ n
    → ((j : ℕ) → j < n → b' j ≡ b (n - 1 - j))
    → high_first base b' k ≡ low_first base b (n - k) k
high_first-turned base n b b' zero h turned = refl
high_first-turned base n b b' (suc k) h turned =
    let ih = high_first-turned base n b b' k (omega (arith, h)) turned in
    let here : b' k ≡ b (n - suc k) = turned k (omega (arith, h)) ∙ ap b (omega arith) in
    let next : n - suc k + 1 ≡ n - k = omega (arith, h) in rw (next, ih, here) refl

-- A buffer holds a numeral: digits of the base, at least one and without a 0 in front, up to a NUL that
-- read as the value, the highest digit first.
pub record Numeral (b : Buffer) (value base : ℕ) : Type 0 where
  pub length : ℕ
  pub some_digit : 0 < length
  pub bound : length ≤ 32
  pub digits : (j : ℕ) → j < length → IsDigit base (b j)
  pub no_zero : 1 < length → b 0 ≢ b'0'
  pub ends : b length ≡ 0
  pub reads : high_first base b length ≡ value

pub record Printed (value base : ℕ) (r : Option Buffer) : Type 0 where
  pub buffer : Buffer
  pub returns : r ≡ some buffer
  pub numeral : Numeral buffer value base

digits_of : (n : ℕ) (b : Buffer) (value base : ℕ) → low_first base b 0 n ≡ value → 0 < value → 0 < n
digits_of zero b value base h more = omega (arith, h, more)
digits_of (suc n) b value base h more = omega arith

zero-IsDigit : (base : ℕ) → 2 ≤ base → IsDigit base b'0'
zero-IsDigit base two = record {
  known = inl (omega arith, omega arith);
  value = omega (arith, two);
}

finish-Written :
    {b : Buffer} {value base : ℕ} {r : Option (Buffer × ℕ)}
    → Written 32 b 0 value base r
    → 0 < value
    → Printed value base (finish r)
finish-Written {b} {value} {base} {r} w more =
    let n = w.count in
    let turned : Buffer = reverse_string (n / 2) w.buffer n 0 in
    let starts : 0 + n ≡ n = omega arith in
    let none_left : n - n ≡ 0 = omega arith in
    let closed : Buffer = store turned n 0 in
    let turns = λ (j : ℕ) (h : j < n).
      store_other turned n 0 j (omega (arith, h))
      ∙ reverse_string_inside (n / 2) w.buffer n 0 j (omega arith) (omega arith) (omega arith)
          (omega (arith, h)) in
    record {
      buffer = closed;
      returns = rw (w.returns, starts) refl;
      numeral = record {
        length = n;
        some_digit = digits_of n w.buffer value base w.stands_for more;
        bound = w.bound;
        digits = λ j h.
            subst (IsDigit base) (sym (turns j h))
              (w.digits (n - 1 - j) (omega arith) (omega (arith, h)));
        no_zero = λ h.
            let place : 0 + n - 1 ≡ n - 1 - 0 = omega arith in
            rw (turns 0 (omega (arith, h)), ← place) (w.top (omega (arith, h)));
        ends = store_here turned n 0;
        reads =
            high_first-turned base n w.buffer closed n (omega arith) turns
            ∙ ap (λ (i : ℕ). low_first base w.buffer i n) none_left
            ∙ w.stands_for;
      };
    }

-- For a base from 2 to 16 and a 32-bit value, the conversion to text ends, and the buffer holds
-- from 1 to 32 digits of the base, from '0' to '9' and 'A' to 'F', with no 0 in front of
-- another, and a NUL; they read, the highest digit first, as the value in the base.
pub iota-Numeral :
    (b : Buffer) (value base : ℕ)
    → 2 ≤ base
    → base ≤ 16
    → value < 2 ^ 32
    → Printed value base (iota b value base)
unfolding iota store
iota-Numeral b value base two top small =
    let in_range : (ltb base 1 || ltb 16 base) ≡ false = ground (arith, two, top) in
    elim (Bool-cases (value == 0)) [
      | inl nothing ↦ record {
        buffer = store (store b 0 b'0') 1 0;
        returns = rw nothing refl;
        numeral = record {
          length = 1;
          some_digit = omega arith;
          bound = omega arith;
          digits = λ j h.
              let first : 0 ≡ j = omega (arith, h) in
              subst (λ (i : ℕ). IsDigit base (store (store b 0 b'0') 1 0 i)) first
                (zero-IsDigit base two);
          no_zero = λ h. absurd (omega (arith, h));
          ends = store_here (store b 0 b'0') 1 0;
          reads = ground (arith, nothing);
        };
      }
      | inr more ↦
          rw (more, in_range)
            (finish-Written (write_digits-Written 32 b 0 value base two top small (omega arith))
              (ground (arith, more)))
    ]
