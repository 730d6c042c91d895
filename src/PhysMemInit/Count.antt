-- ===== src/PhysMemInit/Count.antt =====
-- How many pages the walk over the memory map counts as free.
use fantom_os.Base.{
  ℕ, zero, suc, ◌+◌, ◌-◌, ◌/◌, ◌%◌, ◌^◌, ◌≤◌, ◌<◌, ◌≡◌, refl, true, false, inl, inr, Option, none,
  some, List, [], ◌∷◌, arith, ltb, ◌==◌, if◌then◌else◌, Bool-cases, u32, page_size,
}
use fantom_os.Bitmap.{Bitmap}
use fantom_os.Multiboot.{MmapEntry, multiboot_memory_available}
use fantom_os.PhysMemInit.{Marked, mark_page, mark_pages, mark_entries}
use fantom_os.PhysMemInit.Laws.{AllShort}

-- the pages from the address `a` on that begin below `len` and above `new_kend`
abbrev pub pages_above : (new_kend len a : ℕ) → ℕ
pages_above new_kend len a =
    (len + page_size - 1) / page_size
    - (if ltb new_kend a then a / page_size else new_kend / page_size + 1)

-- the sum of these over the available entries
abbrev pub pages_given : ℕ → List MmapEntry → ℕ
pages_given k [] = 0
pages_given k (e ∷ es) =
    (if e.type == multiboot_memory_available then pages_above k e.len e.addr else 0)
    + pages_given k es

-- the count of a walk, 0 if it does not end
abbrev pub counted : Option Marked → ℕ
counted none = 0
counted (some s) = s.mbfree

one_page :
    (k len a : ℕ)
    → a % page_size ≡ 0
    → a < len
    → pages_above k len (a + page_size) + (if ltb k a then 1 else 0) ≤ pages_above k len a
one_page k len a al more = ground arith

mbfree-mark_page :
    (map : Bitmap) (k a : ℕ) (s : Marked)
    → (mark_page map k a s).mbfree ≤ s.mbfree + (if ltb k a then 1 else 0)
unfolding mark_page
mbfree-mark_page map k a s = ground arith

-- one round, and the end of the walk
further :
    (f : ℕ) (map : Bitmap) (k len a : ℕ) (s : Marked)
    → a < len
    → u32 (a + page_size) ≡ a + page_size
    → mark_pages (suc f) map k len a s
      ≡ mark_pages f map k len (a + page_size) (mark_page map k a s)
unfolding mark_pages
further f map k len a s more next =
    let on : ltb a len ≡ true = ground (arith, more) in rw (mark_pages, on, next) refl

ended :
    (f : ℕ) (map : Bitmap) (k len a : ℕ) (s : Marked)
    → ltb a len ≡ false
    → mark_pages (suc f) map k len a s ≡ some s
unfolding mark_pages
ended f map k len a s e = rw (mark_pages, e) refl

counted-mark_pages :
    (f : ℕ) (map : Bitmap) (k len a : ℕ) (s : Marked)
    → a % page_size ≡ 0
    → a < 2 ^ 32
    → len + page_size ≤ 2 ^ 32
    → counted (mark_pages f map k len a s) ≤ s.mbfree + pages_above k len a
unfolding mark_pages
counted-mark_pages zero map k len a s al ha hl = omega arith
counted-mark_pages (suc f) map k len a s al ha hl = elim (Bool-cases (ltb a len)) [
  | inl e ↦
      let below : a < len = ground (arith, e) in
      let next : u32 (a + page_size) ≡ a + page_size = omega (arith, below, hl) in
      let rest =
        counted-mark_pages f map k len (a + page_size) (mark_page map k a s) (omega (arith, al))
          (omega (arith, below, hl)) hl in
      rw (further f map k len a s below next)
        (omega (arith, rest, one_page k len a al below, mbfree-mark_page map k a s))
  | inr e ↦ rw (ended f map k len a s e) (omega arith)
]

counted_then :
    (r : Option Marked) (go : Marked → Option Marked) (n m : ℕ)
    → counted r ≤ n
    → ((s : Marked) → counted (go s) ≤ s.mbfree + m)
    → counted (elim r [ none ↦ none | some s ↦ go s ]) ≤ n + m
counted_then none go n m h later = omega arith
counted_then (some s) go n m h later = omega (arith, h, later s)

one_entry :
    (f : ℕ) (map : Bitmap) (k : ℕ) (e : MmapEntry) (s : Marked)
    → e.addr % page_size ≡ 0
    → e.addr < 2 ^ 32
    → e.len + page_size ≤ 2 ^ 32
    → counted (
        if e.type == multiboot_memory_available
        then mark_pages f map k e.len (u32 e.addr) s
        else some s)
      ≤ s.mbfree + (if e.type == multiboot_memory_available then pages_above k e.len e.addr else 0)
one_entry f map k e s al ha hl =
    let same : u32 e.addr ≡ e.addr = omega (arith, ha) in
    elim (Bool-cases (e.type == multiboot_memory_available)) [
      | inl y ↦ rw (y, same) (counted-mark_pages f map k e.len e.addr s al ha hl)
      | inr n ↦ rw n (omega arith)
    ]

-- The walk over the memory map counts at most the pages that its available entries give.
pub counted-mark_entries :
    (f : ℕ) (map : Bitmap) (k : ℕ) (es : List MmapEntry) (s : Marked)
    → AllShort es
    → counted (mark_entries f map k es s) ≤ s.mbfree + pages_given k es
unfolding mark_entries
counted-mark_entries f map k [] s short = omega arith
counted-mark_entries f map k (e ∷ es) s short =
    let both =
      counted_then
        (if e.type == multiboot_memory_available
          then mark_pages f map k e.len (u32 e.addr) s
          else some s)
        (mark_entries f map k es) _ (pages_given k es)
        (one_entry f map k e s short.0 short.1 short.2)
        (λ s'. counted-mark_entries f map k es s' short.3) in
    omega (arith, both)
