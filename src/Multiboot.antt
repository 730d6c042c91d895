-- ===== src/Multiboot.antt =====
-- What the boot loader hands over (`multiboot_info_t`), and the addresses that the linker and the
-- loader fix. The memory map is walked entry by entry, so it is a list here.
use fantom_os.Base.{ℕ, List}

-- `multiboot_memory_map_t`; `addr` and `len` have 64 bits
pub record MmapEntry : Type 0 where
  pub addr : ℕ
  pub len : ℕ
  pub type : ℕ

-- `multiboot_module_t`
pub record MbModule : Type 0 where
  pub mod_start : ℕ
  pub mod_end : ℕ

pub record MultibootInfo : Type 0 where
  pub mods : List MbModule
  pub mmap : List MmapEntry

abbrev pub multiboot_memory_available : ℕ
multiboot_memory_available = 1

-- `PhysMemInfo_t` and `PhysMemInfoH_t`, which have the same fields
pub record PhysMemInfo : Type 0 where
  pub phys_kend : ℕ
  pub phys_total : ℕ
  pub phys_blocks : ℕ
  pub phys_mbfree : ℕ
