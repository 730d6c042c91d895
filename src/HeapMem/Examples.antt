-- ===== src/HeapMem/Examples.antt =====
-- A heap in the frame 3, which the directory in force in the frame 1 leads to, and two pages to come.
use fantom_os.Base.{◌≡◌, refl, false, some, arith, [], ◌∷◌}
use fantom_os.HeapMem.{sbrk}
use fantom_os.HeapMem.Page.{HasHeap, IsNew}
use fantom_os.HeapMem.Grow.{Grown, sbrk-Grown}
use fantom_os.VirtMem.{init_entry}
use fantom_os.VirtMem.Machine.{Frames, Vm, put, zeros}

abbrev heap_frames : Frames
heap_frames =
    put (put (put (λ _ _. zeros) 1 1023 (init_entry 0x1000 1 0)) 1 768 (init_entry 0x2000 1 0)) 1
      128 (init_entry 0x3000 1 1)

abbrev heap_vm : Vm
heap_vm = record {
  frames = heap_frames;
  cr3 = 1;
  pse_enabled = false;
  supply = 0xC000 ∷ 0xD000 ∷ 0xE000 ∷ [];
  returned = [];
}

heap_vm-HasHeap : HasHeap heap_vm 2 3 0x1000 128
unfolding init_entry put
heap_vm-HasHeap = record {
  windowed = record {
    small_pages = refl;
    self_there = refl;
    self_frame = refl;
    window_there = refl;
    window_frame = refl;
    apart = omega arith;
  };
  address = omega arith;
  in_force = refl;
  there = refl;
  table = refl;
  width = omega arith;
  not_window = omega arith;
  not_dir = omega arith;
}

page_c : IsNew heap_vm 2 3 0xC000
page_c = record {
  small = omega arith;
  not_dir = omega arith;
  not_window = omega arith;
  not_table = omega arith;
}

page_d : IsNew heap_vm 2 3 0xD000
page_d = record {
  small = omega arith;
  not_dir = omega arith;
  not_window = omega arith;
  not_table = omega arith;
}

sbrk-Grown_example :
    (s' : Vm) × (sbrk 0x2000 0x1000 0x20000000 heap_vm ≡ some ((0x20000000, 0x20002000), s'))
    × Grown heap_vm s' 2 3 0x1000 0x20000000 0 (0xC000 ∷ 0xD000 ∷ []) (0xE000 ∷ [])
sbrk-Grown_example =
    sbrk-Grown heap_vm 2 3 0x1000 128 0x20000000 0 (0xC000 ∷ 0xD000 ∷ []) (0xE000 ∷ [])
      heap_vm-HasHeap (omega arith) (omega arith) (omega arith) (page_c, (page_d, tt)) refl
