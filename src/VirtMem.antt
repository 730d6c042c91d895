-- ===== src/VirtMem.antt =====
-- src/modules/virtmem_paging/VirtMem_Paging.c: page directories and page tables, which the kernel
-- reaches through the directory in force. A page frame is known by its number.
pub mod Machine
pub mod Window
pub mod Lookup
pub mod Map
pub mod Enter
pub mod Unmap
pub mod Copy
pub mod Share
pub mod NewTable
pub mod Large
pub mod MapKernel
pub mod Boot
mod Examples
use fantom_os.Base.{
  ℕ, zero, suc, ◌+◌, ◌-◌, ◌*◌, ◌/◌, ◌%◌, ◌^◌, Bool, true, false, List, [], ◌∷◌, Option, none, some,
  ltb, ◌==◌, if◌then◌else◌, u32, page_size, kbase_vaddress,
}
use fantom_os.VirtMem.Machine.{
  Entry, zeros, Frames, Vm, Run, pure, no_result, ◌>>=◌, ◌>>◌, read_entry, write_entry, clear_frame,
  take, give,
}

-- `READ_WRITE`, `KERNEL_MODE`, and `TEMP_VADDR`
abbrev pub read_write : ℕ
read_write = 1

abbrev pub kernel_mode : ℕ
kernel_mode = 0

abbrev pub temp_vaddr : ℕ
temp_vaddr = 0xC0000000

-- `VirtMem_initPTE` and `VirtMem_initPDE`, which set the same fields: the entry that they leave
unfoldable pub init_entry : ℕ → ℕ → ℕ → Entry
init_entry address read_write priv = record {
  present = true;
  read_write_flag = read_write % 2;
  mode_flag = priv % 2;
  page_address = address / 2 ^ 12 % 2 ^ 20;
  others = 0;
}

-- `pt`, the address at which the directory in force shows the table of the window
abbrev pub window_table : ℕ
window_table = 0xFFC00000 + 4 * (temp_vaddr / 2 ^ 12)

unfoldable pub map_to_current : ℕ → ℕ → Run ℕ
map_to_current paddr page s =
    if s.pse_enabled
    then (if ltb 0x400000 paddr then no_result s else pure (u32 (paddr + kbase_vaddress)) s)
    else (do
      write_entry window_table page (init_entry paddr read_write kernel_mode)
      pure (temp_vaddr + page * page_size))
        s

-- the place of an address in its directory and in its table
abbrev pub dir_index : ℕ → ℕ
dir_index vaddr = vaddr / 2 ^ 22

abbrev pub table_index : ℕ → ℕ
table_index vaddr = vaddr / 2 ^ 12 % 1024

-- the result, from the entries on the way
unfoldable pub virt2phys : ℕ → ℕ → Run ℕ
virt2phys dir vaddr = do
  dir_v ← map_to_current dir 0
  dir_e ← read_entry dir_v (dir_index vaddr)
  let found : Run ℕ = (do
    table_v ← map_to_current (dir_e.page_address * 2 ^ 12) 0
    table_e ← read_entry table_v (table_index vaddr)
    pure (if table_e.present then table_e.page_address * 2 ^ 12 else 0))
  if dir_e.present then found else pure 0

-- a page of its own, if none is given
abbrev pub given : ℕ → Run ℕ
given paddr = if paddr == 0 then take else pure paddr

unfoldable pub create_dir : ℕ → Run ℕ
create_dir paddr = do
  p ← given paddr
  virtual_dir ← map_to_current p 0
  clear_frame virtual_dir
  write_entry virtual_dir 1023 (init_entry p read_write kernel_mode)
  pure p

-- A table for a directory entry that has none. The `memset` clears as many bytes as one entry has.
unfoldable pub add_table : ℕ → ℕ → ℕ → ℕ → Run (Unit {0})
add_table dir_v index read_write priv = do
  pt ← take
  write_entry dir_v index (init_entry pt read_write priv)
  pt_v ← map_to_current pt 4
  write_entry pt_v 0 zeros

unfoldable pub map_page : ℕ → ℕ → ℕ → ℕ → ℕ → Run ℕ
map_page dir vaddr paddr read_write priv = do
  p ← given paddr
  dir_v ← map_to_current dir 0
  dir_e ← read_entry dir_v (dir_index vaddr)
  (if dir_e.present then pure tt else add_table dir_v (dir_index vaddr) read_write priv)
  dir_e' ← read_entry dir_v (dir_index vaddr)
  table_v ← map_to_current (dir_e'.page_address * 2 ^ 12) 0
  write_entry table_v (table_index vaddr) (init_entry p read_write priv)
  pure p

unfoldable pub unmap_page : ℕ → ℕ → Bool → Run (Unit {0})
unmap_page dir vaddr free_phys = do
  dir_v ← map_to_current dir 0
  dir_e ← read_entry dir_v (dir_index vaddr)
  let rest : Run (Unit {0}) = (do
    table_v ← map_to_current (dir_e.page_address * 2 ^ 12) 0
    table_e ← read_entry table_v (table_index vaddr)
    let clear : Run (Unit {0}) = (do
      (if free_phys then give (table_e.page_address * 2 ^ 12) else pure tt)
      write_entry table_v (table_index vaddr) zeros)
    if table_e.present then clear else pure tt)
  if dir_e.present then rest else pure tt

-- one entry of the copy; an entry of the heap is copied only if it is present
abbrev pub shared : Entry → Entry
shared e = record {
  present = true;
  read_write_flag = read_write;
  mode_flag = kernel_mode;
  page_address = e.page_address;
  others = 0;
}

-- the loop of `VirtMem_cpyDir` over the entries of the kernel's heap
unfoldable pub copy_heap : ℕ → ℕ → ℕ → ℕ → Run (Unit {0})
copy_heap zero heap src_v dst_v = pure tt
copy_heap (suc n) heap src_v dst_v = do
  write_entry dst_v heap zeros
  e ← read_entry src_v heap
  (if e.present then write_entry dst_v heap (shared e) else pure tt)
  copy_heap n (heap + 1) src_v dst_v

-- `KERNEL_HEAP_BASE >> 22`, and the number of entries of the heap
abbrev pub heap_index : ℕ
heap_index = 0xC0400000 / 2 ^ 22

abbrev pub heap_entries : ℕ
heap_entries = (0xC0400000 + 0x00400000) / 2 ^ 22 - heap_index

unfoldable pub copy_dir : ℕ → ℕ → Run (Unit {0})
copy_dir src dst = do
  src_v ← map_to_current src 4
  dst_v ← map_to_current dst 0
  write_entry dst_v (dir_index kbase_vaddress) zeros
  e ← read_entry src_v (dir_index kbase_vaddress)
  write_entry dst_v (dir_index kbase_vaddress) (shared e)
  copy_heap heap_entries heap_index src_v dst_v

-- `while(vaddr < KEND_VADDRESS)`, for `n` pages from `vaddr` on
unfoldable pub map_kernel : ℕ → ℕ → ℕ → Run (Unit {0})
map_kernel zero kdir vaddr = pure tt
map_kernel (suc n) kdir vaddr = do
  _ ← map_page kdir vaddr (vaddr - kbase_vaddress) read_write kernel_mode
  map_kernel n kdir (vaddr + page_size)

-- `VirtMem_changeDir(kdir); VirtMem_disablePSE();`
unfoldable pub enter_kdir : ℕ → Run (Unit {0})
enter_kdir kdir s = pure tt (record s { cr3 = kdir / 2 ^ 12; pse_enabled = false })

-- `VirtMem_Paging_init`, less the handler of page faults; the result is `kdir`.
unfoldable pub init : Run ℕ
init = do
  (λ s. pure tt (record s { pse_enabled = true }))
  kdir ← create_dir 0
  map_kernel 1024 kdir kbase_vaddress
  enter_kdir kdir
  pure kdir
