-- ===== src/Keyboard/Examples.antt =====
-- The theorems on the buffer of keys at one with a key that waits, and past its 128 bytes.
use fantom_os.Base.{◌≡◌, List, ℕ, zero, suc, [], ◌∷◌, arith}
use fantom_os.Memory.{Mem}
use fantom_os.Keyboard.{new_buffer}
use fantom_os.Keyboard.Laws.{bytes, write_all, stored, write_all-new}

abbrev all_a : Mem
all_a p = b'a'

abbrev many : ℕ → List ℕ
many zero = []
many (suc n) = n ∷ many n

write_all-new_example :
    bytes (write_all (many 129) all_a (new_buffer 100)).0 100 129 ≡ stored (many 129)
write_all-new_example = write_all-new (many 129) all_a 100 (omega arith) (omega arith)
