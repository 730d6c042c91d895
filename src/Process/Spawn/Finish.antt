-- ===== src/Process/Spawn/Finish.antt =====
-- The end of `Process_createUserProcess`, behind the loading of the file.
use fantom_os.Base.{
  ℕ, ◌+◌, ◌/◌, ◌^◌, ◌<◌, ◌≡◌, ◌≢◌, refl, false, some, arith, ◌==◌, List, [], ◌∷◌, ◌++◌, length,
  null, u32,
}
use fantom_os.NodeHeap.{Ptr, Heap}
use fantom_os.NodeHeap.Alloc.{IsCalloc}
use fantom_os.Task.{Kernel, Pcb, wait, put_pcb, store_pcb}
use fantom_os.Task.Did.{Did}
use fantom_os.Scheduler.{add_process}
use fantom_os.Scheduler.Laws.{Queue}
use fantom_os.Scheduler.Add.{Joined, add_process-Joined}
use fantom_os.VirtMem.Machine.{take}
use fantom_os.VirtMem.Window.{Windowed}
use fantom_os.VirtMem.NewTable.{Fresh}
use fantom_os.Vfs.{Node, Mounts}
use fantom_os.Process.Spawn.{
  System, Space, registers, load_code, create_from, fill_stack, copy_registers, next_pid,
  user_registers, user_pcb,
}
use fantom_os.Process.Spawn.Stack.{stacked, stack_run, show_stack, stack_at}

-- The kernel before the call: the block is a new one, and the queue is well formed.
pub record CanJoin (calloc : Heap → Ptr) (k : Kernel) (ds : List ℕ) (pcb : Ptr) : Type 0 where
  pub not_null : pcb ≢ null
  pub queue : Queue k ds
  pub cell : calloc k.nodes ≢ null
  pub room : length ds + 1 < 2 ^ 32

-- The end of the call, behind the loading of the file.
module _ (calloc : Heap → Ptr) (alloc : IsCalloc calloc) (mounts : Mounts) (kdir : ℕ) (new : Space)
    (y : System) (t dir st stt : ℕ) (l : List ℕ) (ds : List ℕ) (w : Windowed y.vm t)
    (r : Fresh y.vm t dir 0xBFFFE000 stt) (pos : 0 < st) (small : st < 2 ^ 32)
    (j : CanJoin calloc y.kernel ds new.pcb) where
  abbrev block : Pcb
  block = user_pcb new y.curr_pid dir

  abbrev pub stored : Kernel
  stored = record (y.kernel) { pcb = put_pcb y.kernel.pcb new.pcb block }

  stored_pcb : stored.pcb new.pcb ≡ some block
  unfolding put_pcb
  stored_pcb = ground arith

  pub added : Did (λ _ k'. Joined stored ds new.pcb block k') (add_process calloc new.pcb stored)
  added =
      let q = j.queue in
      let q' : Queue stored ds = record {
        cells = q.cells;
        words = q.words;
        list = q.list;
        view = q.view;
      } in
      add_process-Joined calloc alloc stored ds new.pcb block j.not_null stored_pcb refl q' j.cell
        j.room

  abbrev pub finished : System
  finished = record y {
    kernel = added.state;
    vm = stacked y.vm t dir st stt l w r pos small;
    curr_pid = u32 (y.curr_pid + 1);
    writes = y.writes ++ registers (st / 2 ^ 12) 4020 user_registers ∷ [];
  }

  pub finish_run :
      (x : System) (file : Node)
      → load_code (file.file_size / 4096 + 1) 0 file dir x ≡ some (tt, y)
      → y.vm.supply ≡ st ∷ stt ∷ l
      → y.curr_pid ≢ 1
      → create_from calloc mounts kdir new dir (some file) x ≡ some (new.pcb, finished)
  unfolding create_from next_pid take fill_stack copy_registers store_pcb
  finish_run x file loaded supply not_first =
      let other : (y.curr_pid == 1) ≡ false = ground arith in
      rw
        (
          loaded,
          supply,
          stack_run y.vm t dir st stt l w r pos small,
          other,
          show_stack y.vm t dir st stt l w r pos small,
          stack_at y.vm t dir st stt l w r pos small,
          added.returns,
        )
        refl

  pub finished_waits : finished.kernel.pcb new.pcb ≡ some (record block { state = wait })
  unfolding put_pcb
  finished_waits = rw added.post.waits (ground arith)

  pub finished_others : (q : Ptr) → q ≢ new.pcb → finished.kernel.pcb q ≡ y.kernel.pcb q
  unfolding put_pcb
  finished_others q ne = rw added.post.waits (ground arith)
