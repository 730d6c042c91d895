-- ===== src/VirtMem/Examples.antt =====
-- A directory in force in frame 1, its window's table in frame 2, and a directory in frame 10 whose
-- table in frame 3 maps the page 5 to the frame 7.
use fantom_os.Base.{◌≡◌, inl, refl, true, false, ◌||◌, some, arith, [], ◌∷◌}
use fantom_os.VirtMem.{init_entry, virt2phys, map_page, given}
use fantom_os.VirtMem.Machine.{Frames, Vm, put, zeros, take}
use fantom_os.VirtMem.Window.{Windowed}
use fantom_os.VirtMem.Lookup.{lookup, Reachable, Returned, in_window, virt2phys-lookup}
use fantom_os.VirtMem.Map.{Separate, entry_at, map_page-lookup}
use fantom_os.VirtMem.{init}
use fantom_os.VirtMem.Boot.{Ready, init-Ready}
use fantom_os.VirtMem.{unmap_page, copy_dir}
use fantom_os.VirtMem.Unmap.{unmap_page-lookup}
use fantom_os.VirtMem.Copy.{Copyable}
use fantom_os.VirtMem.Share.{copy_changes, copy_dir-lookup}
use fantom_os.VirtMem.Lookup.{table_of}
use fantom_os.VirtMem.NewTable.{Fresh, new_changes, map_page-new_table}

abbrev small_frames : Frames
small_frames =
    put
      (put (put (put (λ _ _. zeros) 1 1023 (init_entry 0x1000 1 0)) 1 768 (init_entry 0x2000 1 0))
        10 0 (init_entry 0x3000 1 0))
      3 5 (init_entry 0x7000 1 0)

abbrev small_vm : Vm
small_vm = record {
  frames = small_frames;
  cr3 = 1;
  pse_enabled = false;
  supply = 0xC000 ∷ 0xD000 ∷ [];
  returned = [];
}

small_vm-Windowed : Windowed small_vm 2
unfolding init_entry put
small_vm-Windowed = record {
  small_pages = refl;
  self_there = refl;
  self_frame = refl;
  window_there = refl;
  window_frame = refl;
  apart = omega arith;
}

small_vm-Reachable : Reachable small_vm 2 0xA000 0x5000
unfolding init_entry put
small_vm-Reachable = record {
  address = omega arith;
  dir_apart = omega arith;
  width = omega arith;
  table_apart = inl (omega arith);
}

small_vm-Separate : Separate small_vm 0xA000 0x5000
unfolding init_entry put
small_vm-Separate = record { directory = omega arith; in_force = omega arith }

dir_there : (small_frames 10 0).present ≡ true
unfolding init_entry put
dir_there = refl

small_vm-Fresh : Fresh small_vm 2 0xA000 0x400000 0xD000
unfolding init_entry put
small_vm-Fresh = record {
  address = omega arith;
  small = omega arith;
  missing = refl;
  dir_apart = omega arith;
  dir_entry = inl (omega arith);
  table_apart = omega arith;
  in_force = omega arith;
  directory = omega arith;
}

virt2phys-lookup_example :
    Returned small_vm 2
      (in_window 2 0)
      (λ p _. p ≡ lookup small_frames 10 0x5000)
      (virt2phys 0xA000 0x5000 small_vm)
virt2phys-lookup_example = virt2phys-lookup 0xA000 0x5000 small_vm-Windowed small_vm-Reachable

taken_page : given 0 small_vm ≡ some (0xC000, record small_vm { supply = 0xD000 ∷ [] })
unfolding take
taken_page = refl

map_page-lookup_example :
    Returned small_vm 2
      (λ f i. in_window 2 0 f i || entry_at (small_frames 10 0).page_address 5 f i)
      (λ q s'. (q ≡ 0xC000) × (s'.supply ≡ 0xD000 ∷ []) × (lookup s'.frames 10 0x5000 ≡ 0xC000))
      (map_page 0xA000 0x5000 0 1 0 small_vm)
map_page-lookup_example =
    map_page-lookup {p = 0xC000} {l = 0xD000 ∷ []} 0xA000 0x5000 0 1 0 small_vm-Windowed
      small_vm-Reachable small_vm-Separate taken_page (omega arith) dir_there

map_page-new_table_example :
    Returned small_vm 2
      (new_changes 2 10 0x400000 13)
      (λ q s'.
        (q ≡ 0xC000)
        × (s'.supply ≡ [])
        × (s'.frames 10 1 ≡ init_entry 0xD000 1 0)
        × (s'.frames 13 0 ≡ init_entry 0xC000 1 0)
        × (lookup s'.frames 10 0x400000 ≡ 0xC000))
      (map_page 0xA000 0x400000 0 1 0 small_vm)
map_page-new_table_example =
    map_page-new_table {p = 0xC000} {pt = 0xD000} {l = []} 0xA000 0x400000 0 1 0 small_vm-Windowed
      small_vm-Fresh taken_page (omega arith)

page_there : (small_frames (small_frames 10 0).page_address 5).present ≡ true
unfolding init_entry put
page_there = refl

unmap_page-lookup_example :
    Returned small_vm 2
      (λ f i. in_window 2 0 f i || entry_at (small_frames 10 0).page_address 5 f i)
      (λ _ s'.
        (lookup s'.frames 10 0x5000 ≡ 0) × (s'.returned ≡ lookup small_frames 10 0x5000 ∷ []))
      (unmap_page 0xA000 0x5000 true small_vm)
unmap_page-lookup_example =
    unmap_page-lookup 0xA000 0x5000 true small_vm-Windowed small_vm-Reachable small_vm-Separate
      dir_there page_there

small_vm-Copyable : Copyable small_vm 2 0x1000 0xB000
small_vm-Copyable = record {
  src_address = omega arith;
  dst_address = omega arith;
  src_apart = omega arith;
  dst_apart = omega arith;
  not_same = omega arith;
  not_in_force = omega arith;
}

window_there : (small_frames 1 768).present ≡ true
unfolding init_entry put
window_there = refl

untouched : copy_changes 2 11 (table_of small_frames 1 0xC0005000) 5 ≡ false
unfolding init_entry put
untouched = refl

copy_dir-lookup_example :
    Returned small_vm 2
      (copy_changes 2 11)
      (λ _ s'. lookup s'.frames 11 0xC0005000 ≡ lookup small_frames 1 0xC0005000)
      (copy_dir 0x1000 0xB000 small_vm)
copy_dir-lookup_example =
    copy_dir-lookup 0x1000 0xB000 small_vm-Windowed small_vm-Copyable 0xC0005000
      (inl (refl, window_there)) untouched

-- the memory before the kernel has a directory of its own
abbrev blank_vm : Vm
blank_vm = record {
  frames = λ _ _. zeros;
  cr3 = 0;
  pse_enabled = false;
  supply = 0x1000 ∷ 0x9000 ∷ 0x2000 ∷ 0x3000 ∷ [];
  returned = [];
}

init-Ready_example :
    (s' : Vm) × (init blank_vm ≡ some (0x1000, s'))
    × Ready blank_vm s' 0x1000 0x9000 0x2000 (0x3000 ∷ [])
init-Ready_example =
    init-Ready blank_vm 0x1000 0x9000 0x2000 (0x3000 ∷ []) refl (omega arith) (omega arith)
      (omega arith) (omega arith)
