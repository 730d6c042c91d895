-- ===== src/PhysMemHybrid.antt =====
-- src/modules/physmem_hybrid/PhysMem_Hybrid.c: a stack of low pages in front of a bitmap of all
-- pages, both in the same memory.
mod Examples
pub mod Laws
pub mod Room
pub mod Held
pub mod History
pub mod Fill
pub mod Start
use fantom_os.Base.{
  ℕ, zero, suc, ◌+◌, ◌-◌, ◌*◌, ◌/◌, ◌%◌, ◌^◌, true, false, Option, none, some, ltb, ◌==◌,
  if◌then◌else◌, u32, sub_u32, page_size, kbase_vaddress,
}
use mathlib.Core.Option
use fantom_os.Memory.{Mem}
use fantom_os.Bitmap
use fantom_os.Bitmap.{Bitmap}
use fantom_os.Stack
use fantom_os.Stack.{Stack}
use fantom_os.Multiboot.{MultibootInfo, PhysMemInfo}
use fantom_os.PhysMemInit.{phys_kend_of, phys_total_of, Marked, mark_fuel, mark_entries}
use fantom_os.PhysMemBitmap.{Page, page, search_from}

-- `MAX_PHYS_STACK`
abbrev pub max_phys_stack : ℕ
max_phys_stack = 0x10000

-- `phys_bitmap`, `phys_stack` and the memory that holds their contents
pub record Hybrid : Type 0 where
  pub bitmap : Bitmap
  pub stack : Stack
  pub mem : Mem

unfoldable pub free : Hybrid → ℕ → Hybrid
free h block_address =
    let (s, m) = Stack.push h.stack h.mem block_address in
    if ltb block_address (max_phys_stack * page_size)
    then record h { stack = s; mem = m }
    else record h { mem = Bitmap.clear_bit h.bitmap h.mem (block_address / page_size) }

-- The search of the map is the loop of `PhysMem_Bitmap_allocate`, written out again in the source.
unfoldable pub allocate : Hybrid → Page × Hybrid
unfolding search_from
allocate h =
    let (x, s) = Stack.pop h.stack h.mem in
    let (r, m) = search_from h.bitmap h.mem (u32 (h.bitmap.bytes * 8)) 0 in
    if ltb 0 h.stack.elements then (page x, record h { stack = s }) else (r, record h { mem = m })

-- `for (e = start; e > 0; e--)`: a free low page moves from the map to the stack, until the stack
-- is full.
unfoldable pub fill : ℕ → Hybrid → Hybrid
fill zero h = h
fill (suc e) h =
    let (s, m) =
      Stack.push h.stack (Bitmap.set_bit h.bitmap h.mem (suc e)) (u32 (suc e * page_size)) in
    let h' : Hybrid =
      if Bitmap.check_bit h.bitmap h.mem (suc e) then h else record h { stack = s; mem = m } in
    elim (h'.stack.elements == h'.stack.max_elements) [ true ↦ h' | false ↦ fill e h' ]

-- The map lies behind the kernel, its own record (8 bytes) and that of the stack (12 bytes).
abbrev pub map_of : MultibootInfo → ℕ → Bitmap
map_of mb kernel_end = record {
  base = u32 (phys_kend_of mb.mods kernel_end + kbase_vaddress + 20);
  bytes = u32 (phys_total_of 0 mb.mmap / page_size) / 8;
}

abbrev pub stack_of : Bitmap → Stack
stack_of map = record {
  base = u32 (map.base + map.bytes + 1);
  elements = 0;
  max_elements = max_phys_stack;
}

-- the page that the stack's area ends in, `& 0xFFFFF000`
abbrev pub new_kend_of : Stack → ℕ
new_kend_of s = u32 (sub_u32 s.base kbase_vaddress + max_phys_stack * 4) / page_size * page_size

pub record Booted : Type 0 where
  pub info : PhysMemInfo
  pub hybrid : Hybrid

abbrev pub booted_of : MultibootInfo → ℕ → Marked → Booted
booted_of mb kernel_end s =
    let map = map_of mb kernel_end in
    let start = if ltb s.mbfree max_phys_stack then s.mbfree else max_phys_stack in
    record {
      info = record {
        phys_kend = phys_kend_of mb.mods kernel_end;
        phys_total = phys_total_of 0 mb.mmap;
        phys_blocks = u32 (phys_total_of 0 mb.mmap / page_size);
        phys_mbfree = s.mbfree;
      };
      hybrid = fill start (record { bitmap = map; stack = stack_of map; mem = s.mem });
    }

-- `PhysMem_Hybrid_init`, without what it prints; `none` means that the walk does not end.
unfoldable pub init : MultibootInfo → ℕ → Mem → Option Booted
init mb kernel_end m =
    let map = map_of mb kernel_end in
    let start : Marked = record { mbfree = 0; mem = Bitmap.set_all map m } in
    Option.map (booted_of mb kernel_end)
      (mark_entries mark_fuel map (new_kend_of (stack_of map)) mb.mmap start)
