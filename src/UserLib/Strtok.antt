-- ===== src/UserLib/Strtok.antt =====
-- `strtok` over a line of words.
use fantom_os.Base.{
  ℕ, zero, suc, ◌+◌, ◌-◌, ◌≤◌, ◌<◌, ◌≡◌, ◌≢◌, ◌⊎◌, ◌∙◌, ap, ap₂, sym, subst, refl, true, false,
  none, some, List, [], ◌∷◌, length, ◌==◌, arith,
}
use fantom_os.UserLib.{Memory, store, Tokens, separates, next_token, strtok}

-- A word lies at an address: its characters are neither NUL nor separators.
pub data Word (comp : List ℕ) (m : Memory) : ℕ → List ℕ → Type 0 where
  empty : {a : ℕ} → Word comp m a []
  letter :
      {a c : ℕ} {w : List ℕ}
      → m a ≡ c
      → c ≢ 0
      → separates comp c ≡ false
      → Word comp m (a + 1) w
      → Word comp m a (c ∷ w)

-- where `strtok` stands
abbrev pub tokens_at : ℕ → ℕ → Memory → Tokens
tokens_at pos base m = record { pos = pos; base = base; memory = m }

-- the word is passed
pass_word :
    {comp : List ℕ} {m : Memory} {a : ℕ} {w : List ℕ} (k n start base pos : ℕ)
    → Word comp m a w
    → a ≡ base + pos
    → k ≡ length w + n
    → next_token k comp start (tokens_at pos base m)
      ≡ next_token n comp start (tokens_at (pos + length w) base m)
unfolding next_token
pass_word {comp} {m} {w = w} k n start base pos empty at fuel =
    ap₂ (λ (k p : ℕ). next_token k comp start (tokens_at p base m)) (omega (arith, fuel))
      (omega arith)
pass_word zero n start base pos (letter here some_char apart rest) at fuel = ground (arith, fuel)
pass_word {comp} {m} (suc k) n start base pos (letter {c = c} {w = v} here some_char apart rest) at
      fuel =
    let read : m (base + pos) ≡ c = ap m (sym at) ∙ here in
    let char : (c == 0) ≡ false = ground (arith, some_char) in
    let next : pos + 1 + length v ≡ pos + suc (length v) = omega arith in
    rw (read, char, apart)
      (pass_word k n start base (pos + 1) rest (omega (arith, at)) (omega (arith, fuel))
        ∙ ap (λ (p : ℕ). next_token n comp start (tokens_at p base m)) next)

-- a word that a write spares
pub Word-store :
    {comp : List ℕ} {m : Memory} {a : ℕ} {w : List ℕ} (b c : ℕ)
    → Word comp m a w
    → (b < a) ⊎ (a + length w ≤ b)
    → Word comp (store m b c) a w
unfolding store
Word-store b c empty out = empty
Word-store b c (letter here some_char apart rest) out =
    letter (ground (arith, here, out)) some_char apart (Word-store b c rest (ground (arith, out)))

-- The first character of a word that is not empty is there.
first_char :
    {comp w : List ℕ} {m : Memory} {a : ℕ} → Word comp m a w → 0 < length w → (m a == 0) ≡ false
first_char empty some_word = ground (arith, some_word)
first_char (letter here some_char apart rest) some_word = ground (arith, here, some_char)

-- the characters that follow a word
module _ {comp w : List ℕ} {m : Memory} (n base pos : ℕ) (word : Word comp m (base + pos) w)
    (some_word : 0 < length w) (fuel : length w < n) where
  -- a word before a separator
  token_cut :
      separates comp (m (base + (pos + length w))) ≡ true
      → (m (base + (pos + length w)) == 0) ≡ false
      → next_token n comp pos (tokens_at pos base m)
        ≡ some (
          some (base + pos),
          tokens_at (pos + length w + 1) base (store m (base + (pos + length w)) 0),
        )
  unfolding next_token
  token_cut sep char =
      let end = base + (pos + length w) in
      let kept = first_char (Word-store end 0 word (omega arith)) some_word in
      pass_word n (suc (n - length w - 1)) pos base pos word refl (omega (arith, fuel))
      ∙ rw (char, sep, kept) refl

  -- a word at the end of the string
  token_last :
      m (base + (pos + length w)) ≡ 0
      → next_token n comp pos (tokens_at pos base m)
        ≡ some (some (base + pos), tokens_at 0 base (store m (base + (pos + length w)) 0))
  unfolding next_token
  token_last nul =
      let end = base + (pos + length w) in
      let kept = first_char (Word-store end 0 word (omega arith)) some_word in
      pass_word n (suc (n - length w - 1)) pos base pos word refl (omega (arith, fuel))
      ∙ rw (nul, kept) refl

-- a string: a word and its NUL
abbrev pub TextAt : List ℕ → Memory → ℕ → List ℕ → Type 0
TextAt comp m a w = Word comp m a w × (m (a + length w) ≡ 0)

-- What two calls of `strtok` give: the two words as strings, and a start from the front.
pub record TwoTokens (n str : ℕ) (comp v w : List ℕ) (t : Tokens) : Type 0 where
  pub between : Tokens
  pub after : Tokens
  pub first : strtok n (some str) comp t ≡ some (some str, between)
  pub second : strtok n none comp between ≡ some (some (str + (length v + 1)), after)
  pub first_text : TextAt comp after.memory str v
  pub second_text : TextAt comp after.memory (str + (length v + 1)) w
  pub from_front : after.pos ≡ 0

-- On a line of two words that are not empty, with one separator between them, when the call
-- before left off at the front and the rounds are more than the characters of the words, two
-- calls of strtok return where the words begin, both words are then strings, and the next call
-- starts from the front.
pub strtok-two_words :
    {comp v w : List ℕ} {m : Memory} (n str base sep : ℕ)
    → Word comp m str v
    → 0 < length v
    → m (str + length v) ≡ sep
    → sep ≢ 0
    → separates comp sep ≡ true
    → TextAt comp m (str + (length v + 1)) w
    → 0 < length w
    → length v + length w < n
    → TwoTokens n str comp v w (tokens_at 0 base m)
unfolding strtok store
strtok-two_words {comp} {v} {w} {m} n str base sep first some_first cut char seps (second, nul)
      some_second fuel =
    let from : str + 0 ≡ str = omega arith in
    let end : ℕ = str + length v in
    let cut_at : str + (0 + length v) ≡ end = omega arith in
    let next_at : 0 + length v + 1 ≡ length v + 1 = omega arith in
    let m' : Memory = store m end 0 in
    let second' = Word-store end 0 second (omega arith) in
    let last : ℕ = str + (length v + 1 + length w) in
    let last_at : str + (length v + 1) + length w ≡ last = omega arith in
    record {
      between = tokens_at (length v + 1) str m';
      after = tokens_at 0 str (store m' last 0);
      first =
          token_cut n str 0 (subst (λ (a : ℕ). Word comp m a v) (sym from) first) some_first
            (omega (arith, fuel)) (rw (cut_at, cut) seps) (rw (cut_at, cut) (ground (arith, char)))
          ∙ rw (from, next_at, cut_at) refl;
      second =
          token_last n str (length v + 1) second' some_second (omega (arith, fuel))
            (rw (sym last_at) (ground (arith, nul)));
      first_text =
          (Word-store last 0 (Word-store end 0 first (omega arith)) (omega arith), ground (arith));
      second_text = (Word-store last 0 second' (omega arith), ground (arith, last_at));
      from_front = refl;
    }
