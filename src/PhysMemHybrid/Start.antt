-- ===== src/PhysMemHybrid/Start.antt =====
-- What PhysMem_Hybrid_init leaves behind.
use fantom_os.Base.{
  ℕ, ◌+◌, ◌*◌, ◌^◌, ◌≤◌, ◌<◌, ◌≡◌, refl, ◌∙◌, ap, subst, Bool, not, true, false, Option, some,
  arith, ltb, if◌then◌else◌, u32,
}
use fantom_os.Memory.{Mem, IsBytes}
use fantom_os.Bitmap.{Bitmap, check_bit, set_all}
use fantom_os.Bitmap.Laws.{set_all-IsBytes, check_bit-set_all}
use fantom_os.Multiboot.{MultibootInfo}
use fantom_os.PhysMemInit.{Marked, mark_fuel}
use fantom_os.PhysMemInit.Count.{pages_given, counted, counted-mark_entries}
use fantom_os.PhysMemInit.Laws.{IsPlaced, AllShort, freed_by, mark_entries-Cleared}
use fantom_os.PhysMemHybrid.{
  Hybrid, Booted, max_phys_stack, map_of, stack_of, new_kend_of, booted_of, init,
}
use fantom_os.PhysMemHybrid.Fill.{Moved, fill-Moved}
use fantom_os.PhysMemHybrid.Laws.{IsValid, is_free}

-- The map as the walk over the memory map's entries finds it: every page in use.
abbrev pub all_used : MultibootInfo → ℕ → Mem → Marked
all_used mb kernel_end m = record { mbfree = 0; mem = set_all (map_of mb kernel_end) m }

-- The pages that the memory map's available entries give above the map and the stack.
abbrev pub given : MultibootInfo → ℕ → ℕ
given mb kernel_end = pages_given (new_kend_of (stack_of (map_of mb kernel_end))) mb.mmap

-- The allocator is ready: its state is sound, and the free pages, on the stack or in the map, are
-- those that the memory map gives, above the map and the stack.
pub record IsStarted (mb : MultibootInfo) (kernel_end : ℕ) (r : Option Booted) : Type 0 where
  pub booted : Booted
  pub returns : r ≡ some booted
  pub map : booted.hybrid.bitmap ≡ map_of mb kernel_end
  pub valid : IsValid booted.hybrid
  pub free :
      (j : ℕ)
      → j < (map_of mb kernel_end).bytes * 8
      → is_free booted.hybrid j ≡ freed_by (new_kend_of (stack_of (map_of mb kernel_end))) mb.mmap j

-- The stack at the start, behind the map.
abbrev unfilled : Bitmap → Mem → Hybrid
unfilled map m = record { bitmap = map; stack = stack_of map; mem = m }

unfilled-IsValid :
    (map : Bitmap) (m : Mem)
    → map.bytes * 8 ≤ 2 ^ 20
    → map.base + map.bytes + 1 + 4 * max_phys_stack ≤ 2 ^ 32
    → IsBytes m
    → IsValid (unfilled map m)
unfilled-IsValid map m pages room b =
    let behind : u32 (map.base + map.bytes + 1) ≡ map.base + map.bytes + 1 = ground arith in
    record {
      fits = omega arith;
      pages = pages;
      apart = rw behind (omega arith);
      bytes = b;
      stack = record { room = rw behind room; count = omega arith; small = omega arith };
      stacked = tt;
    }

start_lem : (n : ℕ) → n < max_phys_stack → (if ltb n max_phys_stack then n else max_phys_stack) ≡ n
start_lem n few = let yes : ltb n max_phys_stack ≡ true = ground arith in rw yes refl

not_if : (b : Bool) → not (if b then false else true) ≡ b
not_if b = ground arith

-- If the map and the stack behind it lie in the address space, each entry of the memory map
-- starts on a page below 4 GB and has a length short of 4 GB by a page, and the pages that its
-- available entries give above the map and the stack, as the source reads their length, are
-- fewer than the stack's places and than the pages of the map, then the start of the stack-and-
-- bitmap allocator ends, its state is well formed, and exactly those pages are free.
pub init-IsStarted :
    (mb : MultibootInfo) (kernel_end : ℕ) (m : Mem)
    → IsPlaced (map_of mb kernel_end)
    → (map_of mb kernel_end).base + (map_of mb kernel_end).bytes + 1 + 4 * max_phys_stack ≤ 2 ^ 32
    → AllShort mb.mmap
    → IsBytes m
    → given mb kernel_end < max_phys_stack
    → given mb kernel_end < (map_of mb kernel_end).bytes * 8
    → IsStarted mb kernel_end (init mb kernel_end m)
unfolding init
init-IsStarted mb kernel_end m placed room short b few inside =
    let map = map_of mb kernel_end in
    let fits : map.base + map.bytes ≤ 2 ^ 32 = omega (arith, placed.fits, placed.pages) in
    let go =
      mark_entries-Cleared (2 ^ 20) map (new_kend_of (stack_of map)) mb.mmap
        (all_used mb kernel_end m) (omega arith) placed (set_all-IsBytes map m b) short in
    let bound : counted (some go.final) ≤ 0 + given mb kernel_end =
      subst (λ (r : Option Marked). counted r ≤ 0 + given mb kernel_end) go.ends
        (counted-mark_entries mark_fuel map (new_kend_of (stack_of map)) mb.mmap
          (all_used mb kernel_end m) short) in
    let low : go.final.mbfree < max_phys_stack = omega (arith, bound, few) in
    let there : go.final.mbfree < map.bytes * 8 = omega (arith, bound, inside) in
    let h : Hybrid = record { bitmap = map; stack = stack_of map; mem = go.final.mem } in
    let v : IsValid h = unfilled-IsValid map go.final.mem placed.pages room go.bytes in
    let filled : Moved h (booted_of mb kernel_end go.final).hybrid =
      rw (start_lem go.final.mbfree low) (fill-Moved go.final.mbfree h v refl there low) in
    record {
      booted = booted_of mb kernel_end go.final;
      returns = rw go.ends;
      map = filled.same_map;
      valid = filled.valid;
      free = λ j hj.
          let new_kend = new_kend_of (stack_of map) in
          let bits : check_bit map go.final.mem j
              ≡ (if freed_by new_kend mb.mmap j then false else true) =
            ground (arith, go.bits j hj, check_bit-set_all map m j fits hj) in
          filled.same j hj ∙ ap not bits ∙ not_if (freed_by new_kend mb.mmap j);
    }
