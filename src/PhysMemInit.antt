-- ===== src/PhysMemInit.antt =====
-- What PhysMem_Bitmap_init and PhysMem_Hybrid_init (src/modules/physmem_bitmap, physmem_hybrid) do
-- alike: the end of the kernel, the size of the memory, and the walk over the memory map that clears
-- the bit of each free page.
pub mod Laws
pub mod Count
use fantom_os.Base.{
  ℕ, zero, suc, ◌+◌, ◌-◌, ◌*◌, ◌/◌, ◌%◌, ◌^◌, Option, none, some, List, [], ◌∷◌, ltb, ◌==◌, true,
  false, if◌then◌else◌, u32, sub_u32, page_size, kbase_vaddress,
}
use fantom_os.Memory.{Mem}
use fantom_os.Bitmap
use fantom_os.Bitmap.{Bitmap}
use fantom_os.Multiboot.{MmapEntry, MbModule, MultibootInfo, multiboot_memory_available}

-- `mods[mods_count - 1].mod_end` of a list that is not empty
last_end : MbModule → List MbModule → ℕ
last_end x [] = x.mod_end
last_end x (y ∷ ys) = last_end y ys

-- The kernel ends behind the last boot module, or where the linker says.
unfoldable pub phys_kend_of : List MbModule → ℕ → ℕ
unfolding last_end
phys_kend_of [] kernel_end = sub_u32 kernel_end kbase_vaddress
phys_kend_of (x ∷ xs) kernel_end = last_end x xs

-- `phys_total += mmape->len`, on 64 bits
unfoldable pub phys_total_of : ℕ → List MmapEntry → ℕ
phys_total_of total [] = total
phys_total_of total (e ∷ es) = phys_total_of ((total + e.len) % 2 ^ 64) es

-- The pages counted so far (`phys_mbfree`), and the memory that holds the map.
pub record Marked : Type 0 where
  pub mbfree : ℕ
  pub mem : Mem

-- one round of the inner loop, at the address `a`
unfoldable pub mark_page : Bitmap → ℕ → ℕ → Marked → Marked
mark_page map new_kend a s =
    if ltb new_kend a
    then record { mbfree = u32 (s.mbfree + 1); mem = Bitmap.clear_bit map s.mem (a / page_size) }
    else s

-- `for (a = paddress; a < len; a += PAGE_SIZE)`: `a` has 32 bits and `len` has 64, so the loop may
-- run for ever; `none` means that the fuel ran out.
unfoldable pub mark_pages : ℕ → Bitmap → ℕ → ℕ → ℕ → Marked → Option Marked
mark_pages zero map new_kend len a s = none
mark_pages (suc f) map new_kend len a s = elim (ltb a len) [
  | true ↦ mark_pages f map new_kend len (u32 (a + page_size)) (mark_page map new_kend a s)
  | false ↦ some s
]

-- A 32-bit counter meets each multiple of the page size once.
abbrev pub mark_fuel : ℕ
mark_fuel = 2 ^ 20 + 1

unfoldable pub mark_entries : ℕ → Bitmap → ℕ → List MmapEntry → Marked → Option Marked
mark_entries fuel map new_kend [] s = some s
mark_entries fuel map new_kend (e ∷ es) s =
    let walk = mark_pages fuel map new_kend e.len (u32 e.addr) s in
    let marked = if e.type == multiboot_memory_available then walk else some s in
    elim marked [ none ↦ none | some s' ↦ mark_entries fuel map new_kend es s' ]
