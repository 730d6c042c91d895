-- ===== src/UserLib.antt =====
-- src/ramdisk/libs/string.c and stdio.c: the strings and the input line of user programs. Memory is a
-- function from addresses to bytes.
mod Examples
pub mod Strtok
pub mod Words
use fantom_os.Base.{
  ℕ, zero, suc, ◌+◌, ◌-◌, ◌^◌, Bool, true, false, ◌||◌, not, ◌&&◌, Option, none, some, List, [],
  ◌∷◌, ◌==◌, ltb, if◌then◌else◌,
}

abbrev pub Memory : Type 0
Memory = ℕ → ℕ

unfoldable pub store : Memory → ℕ → ℕ → Memory
store m a c b = if a == b then c else m b

-- the bytes at the first place where the strings differ or end, whose difference is the result;
-- `n` rounds at most
unfoldable pub strcmp : ℕ → Memory → ℕ → ℕ → Option (ℕ × ℕ)
strcmp zero m s1 s2 = none
strcmp (suc n) m s1 s2 =
    let rest = strcmp n m (s1 + 1) (s2 + 1) in
    if not (m s1 == 0) && (m s1 == m s2) then rest else some (m s1, m s2)

-- the result is 0
abbrev pub is_equal : Option (ℕ × ℕ) → Option Bool
is_equal none = none
is_equal (some (a, b)) = some (a == b)

-- `pos` and `s`, which `strtok` keeps from call to call, and the memory
pub record Tokens : Type 0 where
  pub pos : ℕ
  pub base : ℕ
  pub memory : Memory

-- a character of `comp`
unfoldable pub separates : List ℕ → ℕ → Bool
separates [] c = false
separates (d ∷ comp) c = (c == d) || separates comp c

abbrev pub cell : Tokens → ℕ → ℕ
cell t i = t.memory (t.base + i)

abbrev pub end_cell : Tokens → ℕ → Tokens
end_cell t i = record t { memory = store t.memory (t.base + i) 0 }

-- the address of a token that is not empty
abbrev pub token_at : Tokens → ℕ → Option ℕ
token_at t start = if cell t start == 0 then none else some (t.base + start)

-- `s[pos] = '\0'; pos = 0;` and the last token
abbrev pub last_token : Tokens → ℕ → Option ℕ × Tokens
last_token t start = let t' = end_cell t t.pos in (token_at t' start, record t' { pos = 0 })

-- The loop over the string. At a separator the text since `start` is a token if it is not empty.
unfoldable pub next_token : ℕ → List ℕ → ℕ → Tokens → Option (Option ℕ × Tokens)
next_token zero comp start t = none
next_token (suc n) comp start t =
    let ended = end_cell t t.pos in
    let cut = record ended { pos = t.pos + 1 } in
    let on_from = next_token n comp (t.pos + 1) cut in
    let on = next_token n comp start (record t { pos = t.pos + 1 }) in
    if cell t t.pos == 0
    then some (last_token t start)
    else if separates comp (cell t t.pos)
    then (if cell ended start == 0 then on_from else some (some (t.base + start), cut))
    else on

-- `start` is where the call before stopped, also for a new string.
unfoldable pub strtok : ℕ → Option ℕ → List ℕ → Tokens → Option (Option ℕ × Tokens)
strtok n none comp t = next_token n comp t.pos t
strtok n (some str) comp t = next_token n comp t.pos (record t { base = str })

-- `gets`, with the characters that the keyboard will give, the index reached, and the echo, the last
-- first. A backspace at the start of the buffer writes before it; `none` is that, or a line that does
-- not end.
unfoldable pub read_line : List ℕ → ℕ → Memory → ℕ → List ℕ → Option (Memory × List ℕ × List ℕ)
read_line [] buffer m index echo = none
read_line (c ∷ later) buffer m index echo =
    let back = read_line later buffer (store m (buffer + index - 1) 0) (index - 1) (c ∷ echo) in
    let typed = read_line later buffer (store m (buffer + index) c) (index + 1) (c ∷ echo) in
    if c == b'\n'
    then some (store m (buffer + index) 0, later, c ∷ echo)
    else if c == 8
    then (if index == 0 then none else back)
    else typed

abbrev pub gets : List ℕ → ℕ → Memory → Option (Memory × List ℕ × List ℕ)
gets keys buffer m = read_line keys buffer m 0 []
