-- ===== src/PhysMemBitmap.antt =====
-- src/modules/physmem_bitmap/PhysMem_Bitmap.c: one bit for each page of physical memory.
mod Examples
pub mod Init
pub mod Laws
use mathlib.Core.Option
use fantom_os.Base.{
  ℕ, zero, suc, ◌+◌, ◌-◌, ◌*◌, ◌/◌, ◌^◌, ◌≡◌, Bool, true, false, Option, none, some, List, [], ◌∷◌,
  ltb, leb, ◌==◌, ◌&&◌, if◌then◌else◌, u32, sub_u32, page_size, kbase_vaddress,
}
use fantom_os.Memory.{Mem}
use fantom_os.Bitmap
use fantom_os.Bitmap.{Bitmap}
use fantom_os.Multiboot.{MultibootInfo, PhysMemInfo}
use fantom_os.PhysMemInit.{phys_kend_of, phys_total_of, Marked, mark_fuel, mark_entries}

-- What an allocation returns: a page's address, or the halt of `Kernel_panic`.
pub data Page : Type 0 where
  page : ℕ → Page
  panic : Page

-- `PhysMem_Bitmap_free`, of the map and the memory
unfoldable pub free : Bitmap → Mem → ℕ → Mem
free map m block_address = Bitmap.clear_bit map m (block_address / page_size)

-- The loop of `PhysMem_Bitmap_allocate`, with `n` rounds left from `index` on.
unfoldable pub search_from : Bitmap → Mem → ℕ → ℕ → Page × Mem
search_from map m zero index = (panic, m)
search_from map m (suc n) index = elim (Bitmap.check_bit map m index) [
  | false ↦ (page (u32 (index * page_size)), Bitmap.set_bit map m index)
  | true ↦ search_from map m n (index + 1)
]

unfoldable pub allocate : Bitmap → Mem → Page × Mem
unfolding search_from
allocate map m = search_from map m (u32 (map.bytes * 8)) 0

-- Where `PhysMem_Bitmap_init` puts the map: behind the kernel and the map's own record of 8 bytes.
abbrev pub map_of : MultibootInfo → ℕ → Bitmap
map_of mb kernel_end = record {
  base = u32 (phys_kend_of mb.mods kernel_end + kbase_vaddress + 8);
  bytes = u32 (phys_total_of 0 mb.mmap / page_size) / 8;
}

-- the page that the map ends in, `& 0xFFFFF000`
abbrev pub new_kend_of : Bitmap → ℕ
new_kend_of map = u32 (sub_u32 map.base kbase_vaddress + map.bytes) / page_size * page_size

pub record Booted : Type 0 where
  pub info : PhysMemInfo
  pub map : Bitmap
  pub mem : Mem

abbrev pub booted_of : MultibootInfo → ℕ → Marked → Booted
booted_of mb kernel_end s = record {
  info = record {
    phys_kend = phys_kend_of mb.mods kernel_end;
    phys_total = phys_total_of 0 mb.mmap;
    phys_blocks = u32 (phys_total_of 0 mb.mmap / page_size);
    phys_mbfree = s.mbfree;
  };
  map = map_of mb kernel_end;
  mem = s.mem;
}

-- `PhysMem_Bitmap_init`, without what it prints; `none` means that the walk does not end.
unfoldable pub init : MultibootInfo → ℕ → Mem → Option Booted
init mb kernel_end m =
    let map = map_of mb kernel_end in
    let start : Marked = record { mbfree = 0; mem = Bitmap.set_all map m } in
    Option.map (booted_of mb kernel_end)
      (mark_entries mark_fuel map (new_kend_of map) mb.mmap start)
