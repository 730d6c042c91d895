-- ===== src/Debug.antt =====
-- src/core/debug/Debug.c: numbers as text, and formatted output to the serial port and the screen.
pub mod Digits
pub mod Reverse
pub mod Laws
pub mod Format
mod Examples
use fantom_os.Base.{
  ℕ, zero, suc, ◌+◌, ◌-◌, ◌*◌, ◌/◌, ◌%◌, ◌^◌, ◌<◌, ◌≡◌, Bool, true, false, ◌||◌, Option, none, some,
  List, [], ◌∷◌, ◌++◌, ltb, ◌==◌, if◌then◌else◌, u8, get_or,
}
use fantom_os.Vga.{Screen}
use fantom_os.Vga as Vga

-- the characters of a buffer, by their places
abbrev pub Buffer : Type 0
Buffer = ℕ → ℕ

unfoldable pub store : Buffer → ℕ → ℕ → Buffer
store b i c j = if i == j then c else b j

-- `values`
abbrev pub values : List ℕ
values =
    b'0' ∷ b'1' ∷ b'2' ∷ b'3' ∷ b'4' ∷ b'5' ∷ b'6' ∷ b'7' ∷ b'8' ∷ b'9' ∷ b'A' ∷ b'B' ∷ b'C' ∷ b'D'
    ∷ b'E' ∷ b'F' ∷ []

unfoldable pub digit : ℕ → ℕ
digit d = get_or values d 0

-- `while(value > 0)`, with the place reached; `none` is fuel that runs out.
unfoldable pub write_digits : ℕ → Buffer → ℕ → ℕ → ℕ → Option (Buffer × ℕ)
write_digits zero b pos value base = if value == 0 then some (b, pos) else none
write_digits (suc n) b pos value base =
    let rest =
      write_digits n (store b pos (digit (value % base))) (u8 (pos + 1)) (value / base) base in
    if value == 0 then some (b, pos) else rest

-- the exchange of the places `c` and `pos - 1 - c`
unfoldable pub exchange : Buffer → ℕ → ℕ → Buffer
exchange b pos c = store (store b c (b (pos - 1 - c))) (pos - 1 - c) (b c)

-- `for(c = 0 ; c < bufferpos/2 ; c++)`, for `n` rounds from `c` on
unfoldable pub reverse_string : ℕ → Buffer → ℕ → ℕ → Buffer
reverse_string zero b pos c = b
reverse_string (suc n) b pos c = reverse_string n (exchange b pos c) pos (c + 1)

abbrev pub finish : Option (Buffer × ℕ) → Option Buffer
finish none = none
finish (some (b, pos)) = some (store (reverse_string (pos / 2) b pos 0) pos 0)

-- `value` is unsigned, so the branches for a negative one are not taken. A base of 1 leaves `value`
-- as it is, and the loop does not end.
unfoldable pub iota : Buffer → ℕ → ℕ → Option Buffer
iota b value base =
    if (value == 0) || (ltb base 1 || ltb 16 base)
    then some (store (store b 0 b'0') 1 0)
    else finish (write_digits 32 b 0 value base)

-- the characters from a place on, up to the NUL
unfoldable pub text_at : ℕ → Buffer → ℕ → List ℕ
text_at zero b i = []
text_at (suc n) b i = if b i == 0 then [] else b i ∷ text_at n b (i + 1)

-- What printing reaches: the characters handed to `Serial_putChar`, in order, and the screen.
pub record Console : Type 0 where
  pub serial_enabled : Bool
  pub video_enabled : Bool
  pub serial : List ℕ
  pub screen : Screen

unfoldable pub put_char : ℕ → Console → Console
put_char c k = record k {
  serial = if k.serial_enabled then k.serial ++ c ∷ [] else k.serial;
  screen = if k.video_enabled then Vga.put_char c k.screen else k.screen;
}

unfoldable pub put_str : List ℕ → Console → Console
put_str s k = record k {
  serial = if k.serial_enabled then k.serial ++ s else k.serial;
  screen = if k.video_enabled then Vga.put_str s k.screen else k.screen;
}

-- what the caller of `kprintf` passes for a conversion
pub data Arg : Type 0 where
  word : ℕ → Arg
  text : List ℕ → Arg

-- A number printed in a base: the buffer's text up to its NUL. What the buffer held before is not seen,
-- since `iota` writes from its start on.
unfoldable pub put_number : ℕ → ℕ → Console → Option Console
put_number value base k = shown (iota (λ _. 0) value base)
  where
    shown : Option Buffer → Option Console
    shown none = none
    shown (some b) = some (put_str (text_at 48 b 0) k)

abbrev pub Continue : Type 0
Continue = List Arg → Console → Option Console

abbrev pub then_print : Option Console → List Arg → Continue → Option Console
then_print none args k = none
then_print (some c) args k = k args c

abbrev pub print_word : ℕ → List Arg → Console → Continue → Option Console
print_word base (word v ∷ args) c k = then_print (put_number v base c) args k
print_word base (text s ∷ args) c k = none
print_word base [] c k = none

abbrev pub print_text : List Arg → Console → Continue → Option Console
print_text (text s ∷ args) c k = k args (put_str s c)
print_text (word v ∷ args) c k = none
print_text [] c k = none

abbrev pub one_of : ℕ → ℕ → ℕ → Bool
one_of c upper lower = (c == upper) || (c == lower)

-- The conversion behind a `%`, and then the rest. An argument that is missing, or that is not of the
-- conversion's type, is `none`, and so is `%c`, whose `va_arg(args, char)` has no defined behaviour.
unfoldable pub convert : ℕ → List Arg → Console → Continue → Option Console
convert f args c k =
    if one_of f b'X' b'x'
    then print_word 16 args c k
    else if one_of f b'D' b'd'
    then print_word 10 args c k
    else if one_of f b'C' b'c'
    then none
    else if one_of f b'S' b's'
    then print_text args c k
    else k args c

-- The message without its NUL. A `%` at its end makes the loop read past the NUL: `none`.
unfoldable pub kprintf : List ℕ → List Arg → Console → Option Console
kprintf [] args c = some c
kprintf (x ∷ []) args c = if x == b'%' then none else some (put_char x c)
kprintf (x ∷ (f ∷ message)) args c =
    let conversion = convert f args c (kprintf message) in
    let literal = kprintf (f ∷ message) args (put_char x c) in
    if x == b'%' then conversion else literal
