-- ===== src/Process/Examples.antt =====
-- The theorems on switches at three processes: the kernel's runs, the first of the queue is blocked,
-- the second may run. The claims on the queue stand here too.
use fantom_os.Base.{
  ℕ, ◌+◌, ◌≡◌, refl, true, false, some, none, Option, [], ◌∷◌, ◌==◌, if◌then◌else◌, null, arith,
}
use fantom_os.NodeHeap.{Heap, Ptr, node}
use fantom_os.NodeHeap.FirstFree.{first_free, first_free-IsCalloc}
use fantom_os.Task.{Kernel, Pcb, ProcessState, wait, active, blocked}
use fantom_os.Task.Did.{Did}
use fantom_os.Scheduler.{next_process}
use fantom_os.Scheduler.Laws.{Queue, Turned, OnlyQueue, next_process-Turned}
use fantom_os.Process.{pick}
use fantom_os.Process.Switch.{Runs, pick-first}

abbrev block : ℕ → ProcessState → Pcb
block id state = record {
  id = id;
  kernel_stack = record { base = 0; top = 0x1000 };
  user_stack = record { base = 0; top = 0x2000 };
  heap = record { base = 0; top = 0 };
  state = state;
  parent = null;
  page_dir = 0x3000 + id;
  keybuffer = null;
}

abbrev blocks : Ptr → Option Pcb
blocks p =
    if p == 100
    then some (block 0 active)
    else if p == 200
    then some (block 1 wait)
    else if p == 300
    then some (block 2 blocked)
    else none

abbrev pub queue_nodes : Heap
queue_nodes p =
    if p == 16
    then some (node 300 32 null)
    else if p == 32
    then some (node 200 48 16)
    else if p == 48
    then some (node 100 null 32)
    else none

abbrev pub three : Kernel
three = record {
  nodes = queue_nodes;
  process_list = record { items = 3; front = 16; back = 48 };
  current_process = 100;
  scheduler_running = true;
  tick = 0;
  pcb = blocks;
  kprocess = 100;
  tss_ss0 = 0;
  tss_esp0 = 0;
  dr0 = 0;
  dir = 0x3000;
}

pub three-Queue : Queue three (300 ∷ 200 ∷ 100 ∷ [])
three-Queue = record {
  cells = (16, 300) ∷ (32, 200) ∷ (48, 100) ∷ [];
  words = (omega arith, (omega arith, (omega arith, tt)));
  list = record {
    count = refl;
    small = omega arith;
    front = refl;
    back = refl;
    chain = (omega arith, refl, (omega arith, refl, (omega arith, refl, tt)));
    distinct = (refl, (refl, (refl, tt)));
  };
  view = refl;
}

first_idle : Runs three false 300
unfolding fantom_os.Task.is_runnable
first_idle = record { not_null = omega arith; cell = block 2 blocked; held = refl; runnable = refl }

second_may_run : Runs three true 200
unfolding fantom_os.Task.is_runnable
second_may_run = record {
  not_null = omega arith;
  cell = block 1 wait;
  held = refl;
  runnable = refl;
}

next_process-Turned_example :
    Did
      (Turned first_free first_free-IsCalloc three 300 (200 ∷ 100 ∷ []))
      (next_process first_free three)
next_process-Turned_example =
    next_process-Turned first_free first_free-IsCalloc three 300 (200 ∷ 100 ∷ []) three-Queue

pick-first_example :
    Did
      (λ p k'. (p ≡ 200) × Queue k' (100 ∷ 300 ∷ 200 ∷ []) × OnlyQueue three k')
      (pick first_free 3 three)
pick-first_example =
    pick-first first_free first_free-IsCalloc three (300 ∷ []) 200 (100 ∷ []) 3 three-Queue
      (first_idle, tt) second_may_run (omega arith)
