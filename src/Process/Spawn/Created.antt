-- ===== src/Process/Spawn/Created.antt =====
-- `Process_createUserProcess` as a whole, for a process that is not the first.
use fantom_os.Base.{
  ℕ, ◌+◌, ◌*◌, ◌/◌, ◌^◌, ◌≤◌, ◌≡◌, ◌≢◌, inl, refl, ◌∙◌, some, arith, List, [], ◌∷◌, ◌++◌, length,
  u32,
}
use fantom_os.NodeHeap.{Ptr, Heap}
use fantom_os.NodeHeap.Alloc.{IsCalloc}
use fantom_os.Task.{wait}
use fantom_os.Scheduler.Laws.{Queue}
use fantom_os.VirtMem.Machine.{Vm}
use fantom_os.VirtMem.Window.{Windowed}
use fantom_os.VirtMem.Lookup.{lookup}
use fantom_os.VirtMem.NewTable.{Fresh}
use fantom_os.Vfs.{Node, Mounts, open_file}
use fantom_os.Process.Spawn.{
  System, Space, registers, create_user_process, user_registers, user_pcb,
}
use fantom_os.Process.Spawn.Load.{parts}
use fantom_os.Process.Spawn.Stack.{
  CodeAt, Entries-CodeAt, Entries-same, stacked-Windowed, stacked, stacked_dir, stacked_other,
  stacked_lookup,
}
use fantom_os.Process.Spawn.Finish.{
  CanJoin, added, finished, finish_run, finished_waits, finished_others,
}
use fantom_os.Process.Spawn.Begun.{CanCreate, Begun, begun, create_user_process-Begun}

-- What the creation leaves: the directory leads the code's addresses to the pages that the file was
-- read into, and the stack's to the page that the registers stand in; the process waits, last.
pub record Created (y y' : System) (new : Space) (t dir st : ℕ) (ps l : List ℕ) (file : Node)
    (ds : List ℕ) : Type 0 where
  pub windowed : Windowed y'.vm t
  pub in_force : y'.vm.cr3 ≡ y.vm.cr3
  pub supply : y'.vm.supply ≡ l
  pub code : CodeAt y'.vm.frames (dir / 2 ^ 12) 0 ps
  pub stack : lookup y'.vm.frames (dir / 2 ^ 12) 0xBFFFE000 ≡ st / 2 ^ 12 * 2 ^ 12
  pub writes :
      y'.writes ≡ (y.writes ++ parts file 0 ps) ++ registers (st / 2 ^ 12) 4020 user_registers ∷ []
  pub pid : y'.curr_pid ≡ u32 (y.curr_pid + 1)
  pub waits : y'.kernel.pcb new.pcb ≡ some (record (user_pcb new y.curr_pid dir) { state = wait })
  pub others : (q : Ptr) → q ≢ new.pcb → y'.kernel.pcb q ≡ y.kernel.pcb q
  pub queue : Queue y'.kernel (ds ++ new.pcb ∷ [])

-- The end of the call, behind the loading.
module _ (y : System) (s : Vm) (t kdir dir ct st stt p : ℕ) (ps l : List ℕ)
    (c : CanCreate y.vm t kdir dir ct st stt p ps l)
    (b : Begun y s t dir ct (p ∷ ps) (st ∷ stt ∷ l)) where
  pub stack-Fresh : Fresh s t dir 0xBFFFE000 stt
  stack-Fresh = record {
    address = c.directory.small;
    small = c.stack_table.small;
    missing = b.no_stack;
    dir_apart = c.directory.not_window;
    dir_entry = inl (rw b.in_force c.directory.not_in_force);
    table_apart = c.stack_table.not_window;
    in_force = rw b.in_force c.stack_table.not_in_force;
    directory = c.stack_table.not_dir;
  }

  -- The code stands where it stood, if the later entries leave its directory entry and its table.
  pub code_stays :
      (s' : Vm)
      → length (p ∷ ps) ≤ 1024
      → s'.frames (dir / 2 ^ 12) 64 ≡ s.frames (dir / 2 ^ 12) 64
      → ((i : ℕ) → s'.frames (ct / 2 ^ 12) i ≡ s.frames (ct / 2 ^ 12) i)
      → CodeAt s'.frames (dir / 2 ^ 12) 0 (p ∷ ps)
  code_stays s' fits entry same =
      Entries-CodeAt s'.frames (dir / 2 ^ 12) ct 0 (p ∷ ps) c.code_table.small (entry ∙ b.code_dir)
        (omega (arith, fits)) c.pages
        (Entries-same s.frames s'.frames (ct / 2 ^ 12) 0 (p ∷ ps) same b.entries)

-- For a process that does not get the number 1, with the kernel's window set up, pages to come
-- that are apart from the directories, the window and one another's tables, a file of that name
-- of at most 1024 pages, a well-formed queue and an allocator that meets its laws, creating a
-- user process returns its block: its directory leads the code's addresses to the pages into
-- which the file was read, page by page, and the stack's address to the page at whose end the
-- initial registers stand; the block has the next number and waits at the end of the queue, no
-- other block changes, and the pages left are those that were not asked for.
pub create_user_process-Created :
    (calloc : Heap → Ptr) (mounts : Mounts) (y : System) (new : Space) (name : List ℕ) (file : Node)
    (t kdir dir ct st stt p : ℕ) (ps l : List ℕ) (ds : List ℕ)
    → IsCalloc calloc
    → CanCreate y.vm t kdir dir ct st stt p ps l
    → CanJoin calloc y.kernel ds new.pcb
    → open_file mounts name ≡ some file
    → file.file_size / 4096 + 1 ≡ length (p ∷ ps)
    → length (p ∷ ps) ≤ 1024
    → y.curr_pid ≢ 1
    → (y' : System) × (create_user_process calloc mounts kdir new name y ≡ some (new.pcb, y'))
      × Created y y' new t dir st (p ∷ ps) l file ds
create_user_process-Created calloc mounts y new name file t kdir dir ct st stt p ps l ds alloc c j
      found size fits not_first =
    let g =
      create_user_process-Begun calloc mounts y new name file t kdir dir ct st stt p ps l c found
        size fits in
    let b = g.1 in
    let z = begun y (g.0) file (p ∷ ps) in
    let j' : CanJoin calloc z.kernel ds new.pcb = record {
      not_null = j.not_null;
      queue = j.queue;
      cell = j.cell;
      room = j.room;
    } in
    let r = stack-Fresh y (g.0) t kdir dir ct st stt p ps l c b in
    let pos = c.stack_page.0 in
    let small = c.stack_page.1 in
    let s' = stacked (g.0) t dir st stt l b.windowed r pos small in
    (
      finished calloc alloc mounts kdir new z t dir st stt l ds b.windowed r pos small j',
      g.2 _ (λ x loaded.
          finish_run calloc alloc mounts kdir new z t dir st stt l ds b.windowed r pos small j' x
            file loaded b.supply not_first),
      record {
        windowed = stacked-Windowed (g.0) t dir st stt l b.windowed r pos small;
        in_force = b.in_force;
        supply = refl;
        code =
            code_stays y (g.0) t kdir dir ct st stt p ps l c b s' fits
              (stacked_dir (g.0) t dir st stt l b.windowed r pos small 64 (omega arith))
              (λ i.
                stacked_other (g.0) t dir st stt l b.windowed r pos small (ct / 2 ^ 12) i
                  c.code_table.not_window c.code_table.not_dir c.tables);
        stack = stacked_lookup (g.0) t dir st stt l b.windowed r pos small;
        writes = refl;
        pid = refl;
        waits =
            finished_waits calloc alloc mounts kdir new z t dir st stt l ds b.windowed r pos small
              j';
        others =
            finished_others calloc alloc mounts kdir new z t dir st stt l ds b.windowed r pos small
              j';
        queue =
            (added calloc alloc mounts kdir new z t dir st stt l ds b.windowed r pos small
              j').post.queue;
      },
    )
