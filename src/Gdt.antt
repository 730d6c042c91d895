-- ===== src/Gdt.antt =====
-- src/modules/segmentation/GDT.c: the table of segment descriptors.
mod Examples
pub mod Laws
use fantom_os.Base.{ℕ, ◌+◌, ◌*◌, ◌/◌, ◌%◌, ◌^◌, ◌==◌, if◌then◌else◌, bit_and, bit_or, u8, u16}

-- `struct gdt_entry`
pub record Segment : Type 0 where
  pub limit_low : ℕ
  pub base_low : ℕ
  pub base_middle : ℕ
  pub access : ℕ
  pub granularity : ℕ
  pub base_high : ℕ

abbrev pub Table : Type 0
Table = ℕ → Segment

-- the fields that `GDT_set` writes; `access` and `gran` are bytes
unfoldable pub segment : ℕ → ℕ → ℕ → ℕ → Segment
segment base limit access gran = record {
  limit_low = u16 limit;
  base_low = u16 base;
  base_middle = u8 (base / 2 ^ 16);
  access = access;
  granularity = u8 (bit_or (limit / 2 ^ 16 % 16) (bit_and gran 0xF0));
  base_high = u8 (base / 2 ^ 24);
}

unfoldable pub set : ℕ → ℕ → ℕ → ℕ → ℕ → Table → Table
set entry base limit access gran gdt n =
    if entry == n then segment base limit access gran else gdt n

-- `sizeof(struct tss_entry)`
abbrev pub tss_size : ℕ
tss_size = 104

-- the descriptor that `TSS_init` writes, for `tss_e` at an address
unfoldable pub init_tss : ℕ → Table → Table
init_tss tss gdt = set 5 tss (tss + tss_size) 0xE9 0x00 gdt

-- the table that `GDT_init` leaves
unfoldable pub init : ℕ → Table → Table
init tss gdt = init_tss tss (
    set 4 0 0xFFFFFFFF 0xF2 0xCF (
      set 3 0 0xFFFFFFFF 0xFA 0xCF
        (set 2 0 0xFFFFFFFF 0x92 0xCF (set 1 0 0xFFFFFFFF 0x9A 0xCF (set 0 0 0 0 0 gdt)))))
