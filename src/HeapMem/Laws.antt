-- ===== src/HeapMem/Laws.antt =====
-- No heap shrinks.
use fantom_os.Base.{ℕ, ◌-◌, ◌/◌, ◌^◌, ◌≤◌, ◌<◌, ◌≡◌, none, ltb, ◌==◌, refl, false, arith, page_size}
use fantom_os.HeapMem.{pages_of, take_back, ksbrk, sbrk}
use fantom_os.VirtMem.Machine.{Vm}

pages_of-take_back :
    (word : ℕ)
    → 2 ^ 31 ≤ word
    → word ≤ 2 ^ 32 - page_size
    → pages_of word ≡ take_back ((2 ^ 32 - word) / page_size)
unfolding pages_of
pages_of-take_back word negative page =
    let signed : ltb word (2 ^ 31) ≡ false = ground (arith, negative) in
    let some_page : ((2 ^ 32 - word) / 4096 == 0) ≡ false =
      let more : 0 < (2 ^ 32 - word) / 4096 = omega (arith, page) in ground (arith, more) in
    rw (signed, some_page) refl

pub sbrk-shrink :
    (word dir top : ℕ) (s : Vm)
    → 2 ^ 31 ≤ word
    → word ≤ 2 ^ 32 - page_size
    → (ksbrk word dir top s ≡ none) × (sbrk word dir top s ≡ none)
unfolding ksbrk sbrk
sbrk-shrink word dir top s negative page =
    let back = pages_of-take_back word negative page in
    (rw (back, ksbrk) refl, rw (back, sbrk) refl)
