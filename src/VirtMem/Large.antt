-- ===== src/VirtMem/Large.antt =====
-- src/modules/virtmem_paging/VirtMem_Paging.c: reads, writes and mappings while pages are 4 MB large,
-- before the kernel's own directory is in force.
use fantom_os.Base.{
  ℕ, ◌+◌, ◌*◌, ◌/◌, ◌^◌, ◌<◌, ◌≡◌, refl, true, some, arith, ◌==◌, List, if◌then◌else◌,
}
use fantom_os.VirtMem.{init_entry, map_to_current, dir_index, table_index, given, map_page}
use fantom_os.VirtMem.Machine.{
  Entry, zeros, Frames, Vm, resolve, put, read_entry, write_entry, clear_frame,
}
use fantom_os.VirtMem.Window.{with_frames}
use fantom_os.VirtMem.Map.{with_supply}

-- With 4 MB pages the first 4 MB of the memory stand at the kernel's base.
module _ (s : Vm) (large : s.pse_enabled ≡ true) (paddr : ℕ) (low : paddr < 0x400000) where
  pub map_to_current-large : map_to_current paddr 0 s ≡ some (paddr + 0xC0000000, s)
  unfolding map_to_current
  map_to_current-large = ground (arith, large)

  pub map_to_current_4-large : map_to_current paddr 4 s ≡ some (paddr + 0xC0000000, s)
  unfolding map_to_current
  map_to_current_4-large = ground (arith, large)

  resolve-large : resolve s (paddr + 0xC0000000) ≡ some (paddr / 2 ^ 12)
  unfolding resolve
  resolve-large = ground (arith, large)

  pub read-large :
      (i : ℕ) → read_entry (paddr + 0xC0000000) i s ≡ some (s.frames (paddr / 2 ^ 12) i, s)
  unfolding read_entry
  read-large i = rw resolve-large

  pub write-large :
      (i : ℕ) (e : Entry)
      → write_entry (paddr + 0xC0000000) i e s
        ≡ some (tt, with_frames s (put s.frames (paddr / 2 ^ 12) i e))
  unfolding write_entry
  write-large i e = rw resolve-large

-- the frames with one of them cleared
abbrev pub cleared : Frames → ℕ → Frames
cleared fs f g j = if f == g then zeros else fs g j

pub clear-large :
    (s : Vm) (paddr : ℕ)
    → s.pse_enabled ≡ true
    → paddr < 0x400000
    → clear_frame (paddr + 0xC0000000) s
      ≡ some (tt, with_frames s (cleared s.frames (paddr / 2 ^ 12)))
unfolding clear_frame
clear-large s paddr large low = rw (resolve-large s large paddr low)

-- a mapping through a table that is there
abbrev pub through : Vm → ℕ → ℕ → ℕ → Frames
through s dir vaddr p =
    put s.frames (s.frames (dir / 2 ^ 12) (dir_index vaddr)).page_address (table_index vaddr)
      (init_entry p 1 0)

pub map_page-large :
    (s : Vm) {p : ℕ} {l : List ℕ} (dir vaddr paddr : ℕ)
    → s.pse_enabled ≡ true
    → dir < 0x400000
    → given paddr s ≡ some (p, with_supply s l)
    → (s.frames (dir / 2 ^ 12) (dir_index vaddr)).present ≡ true
    → (s.frames (dir / 2 ^ 12) (dir_index vaddr)).page_address < 1024
    → map_page dir vaddr paddr 1 0 s
      ≡ some (p, with_supply (with_frames s (through s dir vaddr p)) l)
unfolding map_page
map_page-large s {p} {l} dir vaddr paddr large low taken there small =
    let e = s.frames (dir / 2 ^ 12) (dir_index vaddr) in
    let table : e.page_address * 2 ^ 12 < 0x400000 = omega (arith, small) in
    let back : e.page_address * 2 ^ 12 / 2 ^ 12 ≡ e.page_address = omega arith in
    let s' = with_supply s l in
    rw
      (
        taken,
        map_to_current-large s' large dir low,
        read-large s' large dir low (dir_index vaddr),
        there,
        read-large s' large dir low (dir_index vaddr),
        map_to_current-large s' large (e.page_address * 2 ^ 12) table,
        write-large s' large (e.page_address * 2 ^ 12) table (table_index vaddr) (init_entry p 1 0),
        back,
      )
      refl
