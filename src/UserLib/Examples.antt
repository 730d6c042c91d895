-- ===== src/UserLib/Examples.antt =====
-- The line "ls a" in memory, and keys with a correction.
use fantom_os.Base.{ℕ, refl, List, [], ◌∷◌, ◌++◌, get_or, arith}
use fantom_os.UserLib.{Memory, separates, read_line}
use fantom_os.UserLib.Strtok.{empty, letter, TwoTokens, tokens_at, strtok-two_words}
use fantom_os.UserLib.Words.{done, type, erase, ReadLine, read_line-ReadLine}

-- "ls a" at the address 0, and "ls" at 5
abbrev line : Memory
line = get_or' (b'l' ∷ b's' ∷ b' ' ∷ b'a' ∷ 0 ∷ b'l' ∷ b's' ∷ [])
  where
    get_or' : List ℕ → ℕ → ℕ
    get_or' l i = get_or l i 0

abbrev ls : List ℕ
ls = b'l' ∷ b's' ∷ []

strtok-two_words_example : TwoTokens 9 0 (b' ' ∷ []) ls (b'a' ∷ []) (tokens_at 0 77 line)
unfolding separates
strtok-two_words_example =
    strtok-two_words {v = ls} {w = b'a' ∷ []} 9 0 77 b' '
      (letter refl (omega arith) refl (letter refl (omega arith) refl empty)) (omega arith) refl
      (omega arith) refl (letter refl (omega arith) refl empty, refl) (omega arith) (omega arith)

read_line-ReadLine_example :
    ReadLine 40
      (b'x' ∷ 8 ∷ b'y' ∷ [])
      []
      (b'y' ∷ [])
      []
      (read_line ((b'x' ∷ 8 ∷ b'y' ∷ []) ++ b'\n' ∷ []) 40 line 0 [])
read_line-ReadLine_example =
    read_line-ReadLine [] 40 line []
      (type b'x' (omega arith) (omega arith)
        (erase b'x' (type b'y' (omega arith) (omega arith) done)))
      tt
