-- ===== src/PhysMemInit/Laws.antt =====
-- Which bits the walk over the memory map clears.
use fantom_os.Base.{
  ℕ, zero, suc, ◌+◌, ◌*◌, ◌/◌, ◌%◌, ◌^◌, ◌≤◌, ◌<◌, ◌≡◌, refl, inl, inr, Bool, false, ◌&&◌, ◌||◌,
  Option, some, List, [], ◌∷◌, arith, ltb, leb, ◌==◌, if◌then◌else◌, Bool-cases, u32, page_size,
}
use fantom_os.Memory.{Mem, IsBytes}
use fantom_os.Bitmap.{Bitmap, check_bit}
use fantom_os.Bitmap.Laws.{clear_bit-IsBytes, check_bit-clear_bit, check_bit-clear_bit_beyond}
use fantom_os.Multiboot.{MmapEntry, multiboot_memory_available}
use fantom_os.PhysMemInit.{Marked, mark_page, mark_pages, mark_entries}

-- The map, and 2 ^ 17 bytes from its base (a bit for each page of 4 GB), lie in the address space.
pub record IsPlaced (map : Bitmap) : Type 0 where
  pub fits : map.base + 2 ^ 17 ≤ 2 ^ 32
  pub pages : map.bytes * 8 ≤ 2 ^ 20

-- the page `j` is one that the walk from `a` below `len` frees
abbrev pub freed : (new_kend len a j : ℕ) → Bool
freed new_kend len a j =
    leb a (j * page_size) && ltb (j * page_size) len && ltb new_kend (j * page_size)

mark_page-IsBytes :
    (map : Bitmap) (k a : ℕ) (s : Marked) → IsBytes s.mem → IsBytes (mark_page map k a s).mem
unfolding mark_page
mark_page-IsBytes map k a s h = elim (Bool-cases (ltb k a)) [
  | inl e ↦ rw e (clear_bit-IsBytes map s.mem (a / page_size) h)
  | inr e ↦ rw e h
]

mark_page-check_bit :
    (map : Bitmap) (k a j : ℕ) (s : Marked)
    → IsPlaced map
    → IsBytes s.mem
    → a % page_size ≡ 0
    → a < 2 ^ 32
    → j < map.bytes * 8
    → check_bit map (mark_page map k a s).mem j
      ≡ (if ltb k a && (a == j * page_size) then false else check_bit map s.mem j)
unfolding mark_page
mark_page-check_bit map k a j s p b al ha hj =
    elim (Bool-cases (ltb (a / page_size) (map.bytes * 8))) [
      | inl e ↦ ground (arith, p.fits, p.pages, check_bit-clear_bit map s.mem (a / page_size) j b)
      | inr e ↦
          ground (arith, p.fits, p.pages, check_bit-clear_bit_beyond map s.mem (a / page_size) j)
    ]

-- What a walk has done to the memory `m`: it ended, and just the bits that `p` names are cleared.
pub record Cleared (map : Bitmap) (m : Mem) (p : ℕ → Bool) (r : Option Marked) : Type 0 where
  pub final : Marked
  pub ends : r ≡ some final
  pub bytes : IsBytes final.mem
  pub bits :
      (j : ℕ)
      → j < map.bytes * 8
      → check_bit map final.mem j ≡ (if p j then false else check_bit map m j)

-- From an aligned address, with the end more than a page below 4 GB, `f` rounds and the last test
-- reach the end.
mark_pages-Cleared :
    (f : ℕ) (map : Bitmap) (k len a : ℕ) (s : Marked)
    → IsPlaced map
    → IsBytes s.mem
    → a % page_size ≡ 0
    → a < 2 ^ 32
    → len + page_size ≤ 2 ^ 32
    → len ≤ a + f * page_size
    → Cleared map s.mem (freed k len a) (mark_pages (suc f) map k len a s)
unfolding mark_pages
mark_pages-Cleared zero map k len a s p b al ha hl hf = record {
  final = s;
  ends = ground arith;
  bytes = b;
  bits = λ j hj. ground arith;
}
mark_pages-Cleared (suc f) map k len a s p b al ha hl hf = elim (Bool-cases (ltb a len)) [
  | inl e ↦
      let s' = mark_page map k a s in
      let b' = mark_page-IsBytes map k a s b in
      let go =
        mark_pages-Cleared f map k len (u32 (a + page_size)) s' p b' (ground arith) (omega arith) hl
          (ground arith) in
      record {
        final = go.final;
        ends = rw (e, mark_pages) go.ends;
        bytes = go.bytes;
        bits = λ j hj. ground (arith, go.bits j hj, mark_page-check_bit map k a j s p b al ha hj);
      }
  | inr e ↦ record { final = s; ends = ground arith; bytes = b; bits = λ j hj. ground arith }
]

-- the page `j` is one that some entry of the map frees
abbrev pub freed_by : ℕ → List MmapEntry → ℕ → Bool
freed_by k [] j = false
freed_by k (e ∷ es) j =
    ((e.type == multiboot_memory_available) && freed k e.len e.addr j) || freed_by k es j

-- Each available entry starts on a page and ends, as the source reads `len`, below 4 GB less a page.
abbrev pub AllShort : List MmapEntry → Type 0
AllShort [] = Unit {0}
AllShort (e ∷ es) =
    (e.addr % page_size ≡ 0) × (e.addr < 2 ^ 32) × (e.len + page_size ≤ 2 ^ 32) × AllShort es

-- The walk over the whole map ends, on fuel for a 32-bit counter, and clears just the bits of the
-- pages that the available entries free.
pub mark_entries-Cleared :
    (f : ℕ) (map : Bitmap) (k : ℕ) (es : List MmapEntry) (s : Marked)
    → 2 ^ 20 ≤ f
    → IsPlaced map
    → IsBytes s.mem
    → AllShort es
    → Cleared map s.mem (freed_by k es) (mark_entries (suc f) map k es s)
unfolding mark_entries
mark_entries-Cleared f map k [] s hf p b short = record {
  final = s;
  ends = refl;
  bytes = b;
  bits = λ j h. refl;
}
mark_entries-Cleared f map k (e ∷ es) s hf p b short =
    elim (Bool-cases (e.type == multiboot_memory_available)) [
      | inl y ↦
          let one =
            mark_pages-Cleared f map k e.len (u32 e.addr) s p b (omega arith) (omega arith) short.2
              (omega arith) in
          let go = mark_entries-Cleared f map k es one.final hf p one.bytes short.3 in
          record {
            final = go.final;
            ends = rw (y, mark_entries, one.ends) go.ends;
            bytes = go.bytes;
            bits = λ j h. ground (arith, go.bits j h, one.bits j h);
          }
      | inr n ↦
          let go = mark_entries-Cleared f map k es s hf p b short.3 in
          record {
            final = go.final;
            ends = rw (n, mark_entries) go.ends;
            bytes = go.bytes;
            bits = λ j h. rw n (go.bits j h);
          }
    ]
