-- ===== src/UserLib/Words.antt =====
-- `strcmp` decides whether strings are equal, and `gets` edits a line.
use fantom_os.Base.{
  ℕ, zero, suc, ◌+◌, ◌-◌, ◌≤◌, ◌<◌, ◌≡◌, ◌≢◌, ◌⊎◌, refl, inl, inr, true, false, not, ◌&&◌, Option,
  some, List, [], ◌∷◌, ◌++◌, length, ◌==◌, arith, Bool-cases,
}
use fantom_os.UserLib.{Memory, store, strcmp, is_equal, read_line}

-- A string lies at an address: bytes other than NUL, and a NUL.
abbrev pub StringAt : Memory → ℕ → List ℕ → Type 0
StringAt m a [] = m a ≡ 0
StringAt m a (c ∷ w) = (m a ≡ c) × (c ≢ 0) × StringAt m (a + 1) w

-- On two strings without a NUL inside, with more rounds than the first has characters, the
-- comparison ends, with the result 0 if the strings are equal and another result if they differ.
pub strcmp_iff :
    (n : ℕ) (m : Memory) (a b : ℕ) (v w : List ℕ)
    → StringAt m a v
    → StringAt m b w
    → length v < n
    → (is_equal (strcmp n m a b) ≡ some true × (v ≡ w))
      ⊎ (is_equal (strcmp n m a b) ≡ some false × (v ≢ w))
unfolding strcmp
strcmp_iff zero m a b v w at bt fuel = ground (arith, fuel)
strcmp_iff (suc n) m a b [] [] at bt fuel = inl (ground (arith, at, bt), refl)
strcmp_iff (suc n) m a b [] (d ∷ w) at (here, char, rest) fuel =
    inr (ground (arith, at, here, char), cc)
strcmp_iff (suc n) m a b (c ∷ v) [] (here, char, rest) bt fuel =
    inr (ground (arith, bt, here, char), cc)
strcmp_iff (suc n) m a b (c ∷ v) (d ∷ w) (here, char, rest) (here', char', rest') fuel =
    elim (Bool-cases (c == d)) [
      | inl same ↦
          let go : (not (m a == 0) && (m a == m b)) ≡ true =
            ground (arith, here, here', char, same) in
          elim (strcmp_iff n m (a + 1) (b + 1) v w rest rest' (omega (arith, fuel))) [
            | inl (equal, e) ↦ inl (rw go equal, ground (arith, same, e))
            | inr (differ, ne) ↦ inr (rw go differ, ground (arith, ne))
          ]
      | inr apart ↦ inr (ground (arith, here, here', char, apart), ground (arith, apart))
    ]

-- The keys of a line, as they edit a text that stands with its last character first.
pub data Edits : List ℕ → List ℕ → List ℕ → Type 0 where
  done : {typed : List ℕ} → Edits [] typed typed
  type :
      {keys typed line : List ℕ} (c : ℕ)
      → c ≢ b'\n'
      → c ≢ 8
      → Edits keys (c ∷ typed) line
      → Edits (c ∷ keys) typed line
  erase :
      {keys typed line : List ℕ} (c : ℕ) → Edits keys typed line → Edits (8 ∷ keys) (c ∷ typed) line

-- the text in a buffer
abbrev pub Holds : Memory → ℕ → List ℕ → Type 0
Holds m buffer [] = Unit
Holds m buffer (c ∷ typed) = (m (buffer + length typed) ≡ c) × Holds m buffer typed

Holds-store :
    (m : Memory) (buffer b c : ℕ) (typed : List ℕ)
    → buffer + length typed ≤ b
    → Holds m buffer typed
    → Holds (store m b c) buffer typed
unfolding store
Holds-store m buffer b c [] far h = tt
Holds-store m buffer b c (d ∷ typed) far (here, rest) =
    (ground (arith, here, far), Holds-store m buffer b c typed (omega (arith, far)) rest)

abbrev pub onto : List ℕ → List ℕ → List ℕ
onto [] echo = echo
onto (k ∷ keys) echo = onto keys (k ∷ echo)

-- A line was read: the text with its NUL, the keys behind it, and each key echoed.
pub record ReadLine (buffer : ℕ) (keys later line echo : List ℕ)
    (r : Option (Memory × List ℕ × List ℕ)) : Type 0 where
  pub memory : Memory
  pub returns : r ≡ some (memory, later, b'\n' ∷ onto keys echo)
  pub text : Holds memory buffer line
  pub ends : memory (buffer + length line) ≡ 0

-- one more key in front
keyed :
    {buffer : ℕ} {keys later line echo : List ℕ} {r : Option (Memory × List ℕ × List ℕ)} (c : ℕ)
    → ReadLine buffer keys later line (c ∷ echo) r
    → ReadLine buffer (c ∷ keys) later line echo r
keyed c l = record { memory = l.memory; returns = l.returns; text = l.text; ends = l.ends }

-- For keys that edit a line and never erase beyond its start, followed by the end of the line,
-- reading from a text typed so far ends with the edited text and a NUL in the buffer, the keys
-- behind the line left, and every key echoed in order.
pub read_line-ReadLine :
    {keys typed line : List ℕ} (later : List ℕ) (buffer : ℕ) (m : Memory) (echo : List ℕ)
    → Edits keys typed line
    → Holds m buffer typed
    → ReadLine buffer keys later line echo
        (read_line (keys ++ b'\n' ∷ later) buffer m (length typed) echo)
unfolding read_line store
read_line-ReadLine {typed = typed} later buffer m echo done h = record {
  memory = store m (buffer + length typed) 0;
  returns = refl;
  text = Holds-store m buffer (buffer + length typed) 0 typed (omega arith) h;
  ends = ground arith;
}
read_line-ReadLine {typed = typed} later buffer m echo (type c line_goes_on no_erase rest) h =
    let no_end : (c == b'\n') ≡ false = ground (arith, line_goes_on) in
    let no_back : (c == 8) ≡ false = ground (arith, no_erase) in
    let next : length typed + 1 ≡ suc (length typed) = omega arith in
    let here : store m (buffer + length typed) c (buffer + length typed) ≡ c = ground arith in
    rw (no_end, no_back, next)
      (keyed c (
        read_line-ReadLine later buffer (store m (buffer + length typed) c) (c ∷ echo) rest
          (here, Holds-store m buffer (buffer + length typed) c typed (omega arith) h)))
read_line-ReadLine {typed = _ ∷ typed} later buffer m echo (erase c rest) (here, h) =
    let some_text : (suc (length typed) == 0) ≡ false = ground arith in
    let back : suc (length typed) - 1 ≡ length typed = omega arith in
    let place : buffer + suc (length typed) - 1 ≡ buffer + length typed = omega arith in
    rw (some_text, back, place)
      (keyed 8 (
        read_line-ReadLine later buffer (store m (buffer + length typed) 0) (8 ∷ echo) rest
          (Holds-store m buffer (buffer + length typed) 0 typed (omega arith) h)))
