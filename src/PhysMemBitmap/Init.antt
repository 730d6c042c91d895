-- ===== src/PhysMemBitmap/Init.antt =====
-- What PhysMem_Bitmap_init leaves behind.
use fantom_os.Base.{
  ℕ, ◌+◌, ◌*◌, ◌^◌, ◌≤◌, ◌<◌, ◌≡◌, refl, true, false, Option, some, arith, if◌then◌else◌,
}
use fantom_os.Memory.{Mem, IsBytes}
use fantom_os.Bitmap.{check_bit, set_all}
use fantom_os.Bitmap.Laws.{set_all-IsBytes, check_bit-set_all}
use fantom_os.Multiboot.{MultibootInfo}
use fantom_os.PhysMemInit.Laws.{IsPlaced, AllShort, freed_by, mark_entries-Cleared}
use fantom_os.PhysMemBitmap.{Booted, map_of, booted_of, new_kend_of, init}
use fantom_os.PhysMemBitmap.Laws.{IsValid}

-- The allocator is ready: the free pages are those that the memory map gives, above the map itself.
pub record IsReady (mb : MultibootInfo) (kernel_end : ℕ) (r : Option Booted) : Type 0 where
  pub booted : Booted
  pub returns : r ≡ some booted
  pub map : booted.map ≡ map_of mb kernel_end
  pub valid : IsValid booted.map booted.mem
  pub free :
      (j : ℕ)
      → j < booted.map.bytes * 8
      → check_bit booted.map booted.mem j
        ≡ (if freed_by (new_kend_of booted.map) mb.mmap j then false else true)

-- If the map lies in the address space and each entry of the memory map starts on a page below 4
-- GB and has a length short of 4 GB by a page, the start of the bitmap allocator ends, and then
-- exactly the pages that the available entries give, as the source reads their length, above the
-- map are free.
pub init-IsReady :
    (mb : MultibootInfo) (kernel_end : ℕ) (m : Mem)
    → IsPlaced (map_of mb kernel_end)
    → AllShort mb.mmap
    → IsBytes m
    → IsReady mb kernel_end (init mb kernel_end m)
unfolding init
init-IsReady mb kernel_end m placed short b =
    let map = map_of mb kernel_end in
    let fits : map.base + map.bytes ≤ 2 ^ 32 = omega (arith, placed.fits, placed.pages) in
    let go =
      mark_entries-Cleared (2 ^ 20) map (new_kend_of map) mb.mmap
        (record { mbfree = 0; mem = set_all map m }) (omega arith) placed (set_all-IsBytes map m b)
        short in
    record {
      booted = booted_of mb kernel_end go.final;
      returns = rw go.ends;
      map = refl;
      valid = record { fits = fits; pages = placed.pages; bytes = go.bytes };
      free = λ j h. ground (arith, go.bits j h, check_bit-set_all map m j fits h);
    }
