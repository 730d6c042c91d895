-- ===== src/Process/Spawn/First.antt =====
-- `Process_createUserProcess` as a whole, for the first user process.
use fantom_os.Base.{
  ℕ, ◌+◌, ◌/◌, ◌^◌, ◌≤◌, ◌<◌, ◌≡◌, ◌≢◌, refl, ◌∙◌, ap, true, false, some, arith, ◌==◌, List, [],
  ◌∷◌, ◌++◌, length, u32,
}
use fantom_os.NodeHeap.{Ptr, Heap}
use fantom_os.NodeHeap.Alloc.{IsCalloc}
use fantom_os.Task.{store_pcb}
use fantom_os.VirtMem.Machine.{Entry, Vm, take}
use fantom_os.VirtMem.Window.{Windowed}
use fantom_os.VirtMem.NewTable.{Fresh}
use fantom_os.Vfs.{Node, Mounts, open_file}
use fantom_os.Process.Spawn.{
  System, Space, registers, load_code, create_user_process, create_from, fill_stack, copy_registers,
  next_pid, user_registers,
}
use fantom_os.Process.Spawn.Finish.{CanJoin, added, finished_waits, finished_others}
use fantom_os.Process.Spawn.Begun.{IsTable, CanCreate, begun, create_user_process-Begun}
use fantom_os.Process.Spawn.Created.{Created, stack-Fresh, code_stays}
use fantom_os.Process.Spawn.TwoStacks.{
  twice, twice-Windowed, once_run, twice_run, top_at, twice_entry, twice_code, twice_lookup,
}

-- The kernel's directory is in force and has no table for the stack; the page `kt` becomes one.
pub record CanBeFirst (s : Vm) (t kdir dir ct stt kt : ℕ) : Type 0 where
  pub in_force : s.cr3 ≡ kdir / 2 ^ 12
  pub no_stack : (s.frames (kdir / 2 ^ 12) 767).present ≡ false
  pub table : IsTable s t dir kt
  pub not_code : ct / 2 ^ 12 ≢ kt / 2 ^ 12
  pub not_stack : stt / 2 ^ 12 ≢ kt / 2 ^ 12

-- The end of the call for the first process.
module _ (calloc : Heap → Ptr) (alloc : IsCalloc calloc) (mounts : Mounts) (new : Space)
    (y : System) (t kdir dir st stt kt : ℕ) (l ds : List ℕ) (w : Windowed y.vm t)
    (r : Fresh y.vm t dir 0xBFFFE000 stt) (pos : 0 < st) (small : st < 2 ^ 32)
    (kernel_small : kdir < 2 ^ 32) (kernel_apart : kdir / 2 ^ 12 ≢ t)
    (not_kernel : dir / 2 ^ 12 ≢ kdir / 2 ^ 12) (in_force : y.vm.cr3 ≡ kdir / 2 ^ 12)
    (no_stack : (y.vm.frames (kdir / 2 ^ 12) 767).present ≡ false) (table : IsTable y.vm t dir kt)
    (not_stack : stt / 2 ^ 12 ≢ kt / 2 ^ 12) (j : CanJoin calloc y.kernel ds new.pcb) where
  abbrev first_finished : System
  first_finished = record y {
    kernel = (added calloc alloc mounts kdir new y t dir st stt (kt ∷ l) ds w r pos small j).state;
    vm =
        twice y.vm t kdir dir st stt kt l w r pos small kernel_small kernel_apart not_kernel
          in_force no_stack table not_stack;
    curr_pid = u32 (y.curr_pid + 1);
    writes = y.writes ++ registers (st / 2 ^ 12) 4020 user_registers ∷ [];
  }

  first_run :
      (x : System) (file : Node)
      → load_code (file.file_size / 4096 + 1) 0 file dir x ≡ some (tt, y)
      → y.vm.supply ≡ st ∷ stt ∷ kt ∷ l
      → y.curr_pid ≡ 1
      → create_from calloc mounts kdir new dir (some file) x ≡ some (new.pcb, first_finished)
  unfolding create_from next_pid take fill_stack copy_registers store_pcb
  first_run x file loaded supply is_first =
      let test : (y.curr_pid == 1) ≡ true = ground arith in
      rw
        (
          loaded,
          supply,
          once_run y.vm t kdir dir st stt kt l w r pos small kernel_small kernel_apart not_kernel
              in_force no_stack table not_stack,
          test,
          twice_run y.vm t kdir dir st stt kt l w r pos small kernel_small kernel_apart not_kernel
              in_force no_stack table not_stack,
          top_at y.vm t kdir dir st stt kt l w r pos small kernel_small kernel_apart not_kernel
              in_force no_stack table not_stack,
          (added calloc alloc mounts kdir new y t dir st stt (kt ∷ l) ds w r pos small j).returns,
        )
        refl

-- For the process that gets the number 1, with the kernel's directory in force and no table in
-- it for the stack, the window set up, pages to come that are apart as for the others and one
-- more for that table, a file of that name of at most 1024 pages, a well-formed queue and an
-- allocator that meets its laws, creating a user process returns its block with the same
-- promises as for the others: the code and the stack in its directory, the registers at the
-- stack's end, the block last in the queue.
pub create_user_process-first :
    (calloc : Heap → Ptr) (mounts : Mounts) (y : System) (new : Space) (name : List ℕ) (file : Node)
    (t kdir dir ct st stt kt p : ℕ) (ps l : List ℕ) (ds : List ℕ)
    → IsCalloc calloc
    → CanCreate y.vm t kdir dir ct st stt p ps (kt ∷ l)
    → CanBeFirst y.vm t kdir dir ct stt kt
    → CanJoin calloc y.kernel ds new.pcb
    → open_file mounts name ≡ some file
    → file.file_size / 4096 + 1 ≡ length (p ∷ ps)
    → length (p ∷ ps) ≤ 1024
    → y.curr_pid ≡ 1
    → (y' : System) × (create_user_process calloc mounts kdir new name y ≡ some (new.pcb, y'))
      × Created y y' new t dir st (p ∷ ps) l file ds
create_user_process-first calloc mounts y new name file t kdir dir ct st stt kt p ps l ds alloc c f
      j found size fits is_first =
    let g =
      create_user_process-Begun calloc mounts y new name file t kdir dir ct st stt p ps (kt ∷ l) c
        found size fits in
    let s = g.0 in
    let b = g.1 in
    let z = begun y s file (p ∷ ps) in
    let j' : CanJoin calloc z.kernel ds new.pcb = record {
      not_null = j.not_null;
      queue = j.queue;
      cell = j.cell;
      room = j.room;
    } in
    let r = stack-Fresh y s t kdir dir ct st stt p ps (kt ∷ l) c b in
    let pos = c.stack_page.0 in
    let small = c.stack_page.1 in
    let force = b.in_force ∙ f.in_force in
    let no_stack =
      ap (λ (e : Entry). e.present)
        (b.other (kdir / 2 ^ 12) 767 c.kernel_apart (ground (arith, c.not_kernel))
          (ground (arith, c.code_table.not_in_force, f.in_force)))
      ∙ f.no_stack in
    let table : IsTable s t dir kt = record {
      small = f.table.small;
      not_window = f.table.not_window;
      not_in_force = rw b.in_force f.table.not_in_force;
      not_dir = f.table.not_dir;
    } in
    let ks = c.kernel_small in
    let ka = c.kernel_apart in
    let nk = c.not_kernel in
    let ns = f.not_stack in
    let s' =
      twice s t kdir dir st stt kt l b.windowed r pos small ks ka nk force no_stack table ns in
    (
      first_finished calloc alloc mounts new z t kdir dir st stt kt l ds b.windowed r pos small ks
          ka nk force no_stack table ns j',
      g.2 _ (λ x loaded.
          first_run calloc alloc mounts new z t kdir dir st stt kt l ds b.windowed r pos small ks ka
            nk force no_stack table ns j' x file loaded b.supply is_first),
      record {
        windowed =
            twice-Windowed s t kdir dir st stt kt l b.windowed r pos small ks ka nk force no_stack
              table ns;
        in_force = b.in_force;
        supply = refl;
        code =
            code_stays y s t kdir dir ct st stt p ps (kt ∷ l) c b s' fits
              (twice_entry s t kdir dir st stt kt l b.windowed r pos small ks ka nk force no_stack
                table ns)
              (λ i.
                twice_code s t kdir dir st stt kt l b.windowed r pos small ks ka nk force no_stack
                  table ns (ct / 2 ^ 12) i c.code_table.not_window c.code_table.not_dir c.tables
                  (ground (arith, c.code_table.not_in_force, f.in_force)) f.not_code);
        stack =
            twice_lookup s t kdir dir st stt kt l b.windowed r pos small ks ka nk force no_stack
              table ns;
        writes = refl;
        pid = refl;
        waits =
            finished_waits calloc alloc mounts kdir new z t dir st stt (kt ∷ l) ds b.windowed r pos
              small j';
        others =
            finished_others calloc alloc mounts kdir new z t dir st stt (kt ∷ l) ds b.windowed r pos
              small j';
        queue =
            (added calloc alloc mounts kdir new z t dir st stt (kt ∷ l) ds b.windowed r pos small
              j').post.queue;
      },
    )
