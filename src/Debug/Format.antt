-- ===== src/Debug/Format.antt =====
-- What `kprintf` puts out for a message of literal characters, numbers and strings.
use fantom_os.Base.{
  ℕ, zero, suc, ◌+◌, ◌*◌, ◌^◌, ◌≤◌, ◌<◌, ◌≡◌, ◌≢◌, ◌∙◌, ap, subst, refl, inl, inr, Option, some,
  List, [], ◌∷◌, ◌++◌, append_assoc, append-nil, length, false, ◌==◌, if◌then◌else◌, arith,
  Bool-cases,
}
use fantom_os.Debug.{
  Buffer, Console, Arg, word, text, text_at, put_char, put_str, put_number, kprintf, convert,
}
use fantom_os.Debug.Digits.{high_first, digit_value, IsDigit, positive_of_IsDigit}
use fantom_os.Debug.Laws.{Numeral, iota-Numeral}
use fantom_os.Vga.{Screen}
use fantom_os.Vga as Vga

-- the value of a text in a base
abbrev pub reads : ℕ → ℕ → List ℕ → ℕ
reads base acc [] = acc
reads base acc (c ∷ s) = reads base (acc * base + digit_value c) s

-- A text that is a numeral of a value: digits of the base, at least one and without a 0 in front, that
-- read as the value.
abbrev pub AllDigits : ℕ → List ℕ → Type 0
AllDigits base [] = Unit {0}
AllDigits base (c ∷ s) = IsDigit base c × AllDigits base s

abbrev pub NoZero : List ℕ → Type 0
NoZero [] = Unit {0}
NoZero (c ∷ []) = Unit {0}
NoZero (c ∷ (d ∷ s)) = c ≢ b'0'

pub record Reads (base : ℕ) (s : List ℕ) (value : ℕ) : Type 0 where
  pub some_digit : 0 < length s
  pub digits : AllDigits base s
  pub no_zero : NoZero s
  pub value_of : reads base 0 s ≡ value

text_at-AllDigits :
    {b : Buffer} {value base : ℕ} (fuel i : ℕ) (num : Numeral b value base)
    → i ≤ num.length
    → AllDigits base (text_at fuel b i)
unfolding text_at
text_at-AllDigits zero i num h = tt
text_at-AllDigits {b} {value} {base} (suc n) i num h = elim (Bool-cases (b i == 0)) [
  | inl ended ↦ rw ended tt
  | inr on ↦
      let inside : i < num.length = ground (arith, on, h, num.ends) in
      rw on (num.digits i inside, text_at-AllDigits n (i + 1) num (omega (arith, inside)))
]

text_at-some_digit :
    {b : Buffer} {value base : ℕ} (fuel : ℕ) (num : Numeral b value base)
    → 0 < length (text_at (suc fuel) b 0)
unfolding text_at
text_at-some_digit {b} fuel num =
    let first = positive_of_IsDigit (num.digits 0 num.some_digit) in
    let on : (b 0 == 0) ≡ false = ground (arith, first) in rw on (omega arith)

text_at-NoZero :
    {b : Buffer} {value base : ℕ} (fuel : ℕ) (num : Numeral b value base)
    → NoZero (text_at (suc (suc fuel)) b 0)
unfolding text_at
text_at-NoZero {b} {value} {base} fuel num =
    let first = positive_of_IsDigit (num.digits 0 num.some_digit) in
    let on : (b 0 == 0) ≡ false = ground (arith, first) in
    rw on (elim (Bool-cases (b 1 == 0)) [
      | inl single ↦ rw single tt
      | inr more ↦
          let longer : 1 < num.length = ground (arith, more, num.some_digit, num.ends) in
          rw more (num.no_zero longer)
    ])

text_at-reads :
    {b : Buffer} {value base : ℕ} (fuel i : ℕ) (num : Numeral b value base)
    → i ≤ num.length
    → num.length < i + fuel
    → reads base (high_first base b i) (text_at fuel b i) ≡ value
unfolding text_at
text_at-reads zero i num h more = omega (arith, h, more)
text_at-reads {b} {value} {base} (suc n) i num h more = elim (Bool-cases (b i == 0)) [
  | inl ended ↦
      let at_end : i ≡ num.length =
        ground
          (arith, ended, h, λ (low : i < num.length). positive_of_IsDigit (num.digits i low)) in
      rw ended (ap (high_first base b) at_end ∙ num.reads)
  | inr on ↦
      let inside : suc i ≤ num.length = ground (arith, on, h, num.ends) in
      let next : suc i ≡ i + 1 = omega arith in
      rw on (
        subst (λ (j : ℕ). reads base (high_first base b (suc i)) (text_at n b j) ≡ value) next
          (text_at-reads n (suc i) num inside (omega (arith, more))))
]

-- a part of a message, with the value to print
pub data Piece : Type 0 where
  literal : ℕ → Piece
  decimal : ℕ → Piece
  hexadecimal : ℕ → Piece
  string : List ℕ → Piece

abbrev pub message : List Piece → List ℕ
message [] = []
message (literal c ∷ ps) = c ∷ message ps
message (decimal v ∷ ps) = b'%' ∷ (b'd' ∷ message ps)
message (hexadecimal v ∷ ps) = b'%' ∷ (b'x' ∷ message ps)
message (string s ∷ ps) = b'%' ∷ (b's' ∷ message ps)

abbrev pub arguments : List Piece → List Arg
arguments [] = []
arguments (literal c ∷ ps) = arguments ps
arguments (decimal v ∷ ps) = word v ∷ arguments ps
arguments (hexadecimal v ∷ ps) = word v ∷ arguments ps
arguments (string s ∷ ps) = text s ∷ arguments ps

-- literal characters other than `%`, and words of 32 bits
abbrev pub IsProper : List Piece → Type 0
IsProper [] = Unit
IsProper (literal c ∷ ps) = (c ≢ b'%') × IsProper ps
IsProper (decimal v ∷ ps) = (v < 2 ^ 32) × IsProper ps
IsProper (hexadecimal v ∷ ps) = (v < 2 ^ 32) × IsProper ps
IsProper (string s ∷ ps) = IsProper ps

-- The text that stands for a message: each number is a numeral of it in its base.
pub data Renders : List Piece → List ℕ → Type 0 where
  nothing : Renders [] []
  a_literal :
      {ps : List Piece} {out : List ℕ} (c : ℕ) → Renders ps out → Renders (literal c ∷ ps) (c ∷ out)
  a_decimal :
      {ps : List Piece} {out : List ℕ} (v : ℕ) (s : List ℕ)
      → Reads 10 s v
      → Renders ps out
      → Renders (decimal v ∷ ps) (s ++ out)
  a_hexadecimal :
      {ps : List Piece} {out : List ℕ} (v : ℕ) (s : List ℕ)
      → Reads 16 s v
      → Renders ps out
      → Renders (hexadecimal v ∷ ps) (s ++ out)
  a_string :
      {ps : List Piece} {out : List ℕ} (s : List ℕ)
      → Renders ps out
      → Renders (string s ∷ ps) (s ++ out)

-- The devices that are enabled got a text.
pub record Out (c : Console) (out : List ℕ) (c' : Console) : Type 0 where
  pub serial_enabled : c'.serial_enabled ≡ c.serial_enabled
  pub video_enabled : c'.video_enabled ≡ c.video_enabled
  pub serial : c'.serial ≡ (if c.serial_enabled then c.serial ++ out else c.serial)
  pub screen : c'.screen ≡ (if c.video_enabled then Vga.put_str out c.screen else c.screen)

put_str-Out : (s : List ℕ) (c : Console) → Out c s (put_str s c)
unfolding put_str
put_str-Out s c = record {
  serial_enabled = refl;
  video_enabled = refl;
  serial = refl;
  screen = refl;
}

put_char-Out : (x : ℕ) (c : Console) → Out c (x ∷ []) (put_char x c)
unfolding put_char Vga.put_str
put_char-Out x c = record {
  serial_enabled = refl;
  video_enabled = refl;
  serial = refl;
  screen = refl;
}

Out-nothing : (c : Console) → Out c [] c
unfolding Vga.put_str
Out-nothing c = record {
  serial_enabled = refl;
  video_enabled = refl;
  serial = ground (arith, append-nil c.serial);
  screen = ground arith;
}

screen_append :
    (s t : List ℕ) (v : Screen) → Vga.put_str (s ++ t) v ≡ Vga.put_str t (Vga.put_str s v)
unfolding Vga.put_str
screen_append [] t v = refl
screen_append (c ∷ s) t v = screen_append s t (Vga.put_char c v)

Out-then : {a b c : Console} {s t : List ℕ} → Out a s b → Out b t c → Out a (s ++ t) c
Out-then {a} {b} {c} {s} {t} first later = record {
  serial_enabled = later.serial_enabled ∙ first.serial_enabled;
  video_enabled = later.video_enabled ∙ first.video_enabled;
  serial =
      ground (arith, later.serial, first.serial, first.serial_enabled, append_assoc a.serial s t);
  screen =
      ground (arith, later.screen, first.screen, first.video_enabled, screen_append s t a.screen);
}

-- The output of a call that does not fail.
pub record Shown (ps : List Piece) (c : Console) (r : Option Console) : Type 0 where
  pub console : Console
  pub out : List ℕ
  pub returns : r ≡ some console
  pub renders : Renders ps out
  pub shows : Out c out console

-- a number's text, as it is put out
put_number_lem :
    (value base : ℕ) (c : Console)
    → 2 ≤ base
    → base ≤ 16
    → value < 2 ^ 32
    → (s : List ℕ) × (put_number value base c ≡ some (put_str s c)) × Reads base s value
unfolding put_number
put_number_lem value base c two top small =
    let p = iota-Numeral (λ _. 0) value base two top small in
    (
      text_at 48 p.buffer 0,
      rw p.returns refl,
      record {
        some_digit = text_at-some_digit 47 p.numeral;
        digits = text_at-AllDigits 48 0 p.numeral (omega arith);
        no_zero = text_at-NoZero 46 p.numeral;
        value_of = text_at-reads 48 0 p.numeral (omega arith) (omega (arith, p.numeral.bound));
      },
    )

kprintf_literal :
    (x : ℕ) (m : List ℕ) (args : List Arg) (c : Console)
    → x ≢ b'%'
    → kprintf (x ∷ m) args c ≡ kprintf m args (put_char x c)
unfolding kprintf
kprintf_literal x [] args c h = ground (arith, h)
kprintf_literal x (f ∷ m) args c h = ground (arith, h)

-- For a message of literal characters other than the percent sign, numbers and strings, with
-- words of 32 bits as its arguments in order, formatted printing returns, and hands to each
-- enabled device exactly one text: the literals, the strings and, for each number, its numeral
-- in base 10 or 16, which has digits of the base only, at least one, and no 0 in front of
-- another.
pub kprintf-Shown :
    (ps : List Piece) (c : Console)
    → IsProper ps
    → Shown ps c (kprintf (message ps) (arguments ps) c)
unfolding kprintf convert
kprintf-Shown [] c h = record {
  console = c;
  out = [];
  returns = refl;
  renders = nothing;
  shows = Out-nothing c;
}
kprintf-Shown (literal x ∷ ps) c (h, hs) =
    let later = kprintf-Shown ps (put_char x c) hs in
    record {
      console = later.console;
      out = x ∷ later.out;
      returns = kprintf_literal x (message ps) (arguments ps) c h ∙ later.returns;
      renders = a_literal x later.renders;
      shows = Out-then (put_char-Out x c) later.shows;
    }
kprintf-Shown (decimal v ∷ ps) c (h, hs) =
    let (s, put, value) = put_number_lem v 10 c (omega arith) (omega arith) h in
    let later = kprintf-Shown ps (put_str s c) hs in
    record {
      console = later.console;
      out = s ++ later.out;
      returns = rw put later.returns;
      renders = a_decimal v s value later.renders;
      shows = Out-then (put_str-Out s c) later.shows;
    }
kprintf-Shown (hexadecimal v ∷ ps) c (h, hs) =
    let (s, put, value) = put_number_lem v 16 c (omega arith) (omega arith) h in
    let later = kprintf-Shown ps (put_str s c) hs in
    record {
      console = later.console;
      out = s ++ later.out;
      returns = rw put later.returns;
      renders = a_hexadecimal v s value later.renders;
      shows = Out-then (put_str-Out s c) later.shows;
    }
kprintf-Shown (string s ∷ ps) c hs =
    let later = kprintf-Shown ps (put_str s c) hs in
    record {
      console = later.console;
      out = s ++ later.out;
      returns = later.returns;
      renders = a_string s later.renders;
      shows = Out-then (put_str-Out s c) later.shows;
    }
