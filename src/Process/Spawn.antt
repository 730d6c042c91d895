-- ===== src/Process/Spawn.antt =====
-- src/modules/processes/Process.c: the creation of processes, and User_switchTo of
-- src/modules/userspace/User.c, which starts the first one. What `calloc` and Keyboard_getNewBuffer
-- return is given; the heap has room for it.
mod Examples
pub mod NewDir
pub mod Load
pub mod Enters
pub mod Made
pub mod Stack
pub mod Begun
pub mod Finish
pub mod Created
pub mod TwoStacks
pub mod First
use fantom_os.Base.{
  ℕ, zero, suc, ◌+◌, ◌-◌, ◌*◌, ◌/◌, ◌%◌, ◌^◌, Option, none, some, List, [], ◌∷◌, ◌++◌, ◌==◌,
  if◌then◌else◌, true, null, u32, page_size,
}
use fantom_os.NodeHeap.{Ptr, Heap}
use fantom_os.Task.{Kernel, Pcb, Area, created, Outcome, ok, panic, fault, endless, Call}
use fantom_os.Task
use fantom_os.Scheduler.{add_process}
use fantom_os.Process.{get_kprocess, set_tss, seg_kdata}
use fantom_os.HeapMem.{user_mode}
use fantom_os.Interrupts.{seg_kcode}
use fantom_os.VirtMem.{read_write, temp_vaddr, create_dir, map_page, map_to_current, copy_dir}
use fantom_os.VirtMem.Machine.{Vm, Run, resolve, take}
use fantom_os.Vfs.{Node, Mounts, open_file}

-- `Registers`
pub record Registers : Type 0 where
  pub gs : ℕ
  pub fs : ℕ
  pub es : ℕ
  pub ds : ℕ
  pub edi : ℕ
  pub esi : ℕ
  pub ebp : ℕ
  pub esp : ℕ
  pub ebx : ℕ
  pub edx : ℕ
  pub ecx : ℕ
  pub eax : ℕ
  pub int_num : ℕ
  pub err_code : ℕ
  pub eip : ℕ
  pub cs : ℕ
  pub flags : ℕ
  pub esp0 : ℕ
  pub ss0 : ℕ

-- `sizeof(Registers)`
abbrev pub registers_size : ℕ
registers_size = 76

abbrev pub user_code_base : ℕ
user_code_base = 0x10000000

abbrev pub user_heap_base : ℕ
user_heap_base = 0x20000000

abbrev pub user_stack_size : ℕ
user_stack_size = page_size

abbrev pub user_stack_base : ℕ
user_stack_base = 0xC0000000 - page_size - user_stack_size

-- `SEG_UCODE | 3` and `SEG_UDATA | 3`
abbrev pub user_cs : ℕ
user_cs = 0x1B

abbrev pub user_ds : ℕ
user_ds = 0x23

-- A call of `VFS_read` into a page, and a `memcpy` of registers: the page frame that the destination
-- lies in, the place in it, and what is written. The NUL that a device's read leaves behind its last byte
-- is not listed.
pub data Write : Type 0 where
  file_part : ℕ → ℕ → Node → ℕ → ℕ → Write
  registers : ℕ → ℕ → Registers → Write

-- The kernel's state, the memory of the page tables, and the writes into page frames so far. A frame
-- that is written to is taken to be none of a table.
pub record System : Type 0 where
  pub kernel : Kernel
  pub vm : Vm
  pub curr_pid : ℕ
  pub writes : List Write
  pub esp : ℕ

-- `none` is a panic or a fault.
abbrev pub Make : Type 0 → Type 0
Make A = System → Option (A × System)

abbrev pub pure : {A : Type 0} → A → Make A
pure a s = some (a, s)

module _ {A B : Type 0} where
  abbrev pub chain : Option (A × System) → (A → Make B) → Option (B × System)
  chain none k = none
  chain (some (a, s)) k = k a s

  infixl 5 ◌>>=◌ ◌>>◌
  abbrev pub ◌>>=◌ : Make A → (A → Make B) → Make B
  r >>= k = λ s. chain (r s) k

  abbrev pub ◌>>◌ : Make A → Make B → Make B
  r >> q = r >>= λ _. q

abbrev pub with_vm : {A : Type 0} → System → Option (A × Vm) → Option (A × System)
with_vm s none = none
with_vm s (some (a, vm)) = some (a, record s { vm = vm })

abbrev pub on_vm : {A : Type 0} → Run A → Make A
on_vm r s = with_vm s (r s.vm)

abbrev pub with_kernel : {A : Type 0} → System → Outcome A → Option (A × System)
with_kernel s (ok a k) = some (a, record s { kernel = k })
with_kernel s panic = none
with_kernel s fault = none
with_kernel s endless = none

abbrev pub on_kernel : {A : Type 0} → Call A → Make A
on_kernel c s = with_kernel s (c s.kernel)

abbrev pub noted : System → Option ℕ → (ℕ → Write) → Option (Unit {0} × System)
noted s none w = none
noted s (some f) w = some (tt, record s { writes = s.writes ++ w f ∷ [] })

-- `VFS_read(file, …, size, off)` to a virtual address
unfoldable pub vfs_read : Node → ℕ → ℕ → ℕ → Make (Unit {0})
vfs_read file dest size off s =
    noted s (resolve s.vm dest) λ f. file_part f (dest % page_size) file size off

-- `memcpy(dest, regs, sizeof(Registers))`
unfoldable pub copy_registers : ℕ → Registers → Make (Unit {0})
copy_registers dest regs s = noted s (resolve s.vm dest) λ f. registers f (dest % page_size) regs

-- `curr_PID++`
unfoldable pub next_pid : Make ℕ
next_pid s = some (s.curr_pid, record s { curr_pid = u32 (s.curr_pid + 1) })

abbrev pub user_registers : Registers
user_registers = record {
  gs = user_ds;
  fs = user_ds;
  es = user_ds;
  ds = user_ds;
  edi = 0;
  esi = 0;
  ebp = 0;
  esp = 0;
  ebx = 0;
  edx = 0;
  ecx = 0;
  eax = 0;
  int_num = 32;
  err_code = 0;
  eip = user_code_base;
  cs = user_cs;
  flags = 0x0202;
  esp0 = user_stack_base + user_stack_size - registers_size;
  ss0 = user_ds;
}

abbrev pub kernel_registers : ℕ → Registers
kernel_registers halt = record {
  gs = seg_kdata;
  fs = seg_kdata;
  es = seg_kdata;
  ds = seg_kdata;
  edi = 0;
  esi = 0;
  ebp = 0;
  esp = 0;
  ebx = 0;
  edx = 0;
  ecx = 0;
  eax = 0;
  int_num = 32;
  err_code = 0;
  eip = halt;
  cs = seg_kcode;
  flags = 0x0202;
  esp0 = 0;
  ss0 = 0;
}

-- What the allocator and the keyboard give a new process: its block, its kernel stack, its buffer.
pub record Space : Type 0 where
  pub pcb : Ptr
  pub kernel_stack : ℕ
  pub keybuffer : Ptr

-- The loop over the pages of the file, from the `s`th on: each is read through the page 8 of the window.
unfoldable pub load_code : ℕ → ℕ → Node → ℕ → Make (Unit {0})
load_code zero s file dir = pure tt
load_code (suc n) s file dir = do
  p ← on_vm take
  _ ← on_vm (map_page dir (u32 (user_code_base + s * page_size)) p read_write user_mode)
  v ← on_vm (map_to_current p 8)
  vfs_read file v page_size (s * page_size)
  load_code n (s + 1) file dir

-- The registers go to the top of the stack's page, for the first process through its own address.
unfoldable pub fill_stack : ℕ → ℕ → ℕ → Make (Unit {0})
fill_stack id kdir stack =
    let top = user_stack_base + user_stack_size - registers_size in
    let first : Make (Unit {0}) = (do
      _ ← on_vm (map_page kdir user_stack_base stack read_write user_mode)
      copy_registers top user_registers) in
    let other : Make (Unit {0}) = (do
      _ ← on_vm (map_to_current stack 0)
      copy_registers (temp_vaddr + user_stack_size - registers_size) user_registers) in
    if id == 1 then first else other

abbrev pub user_pcb : Space → ℕ → ℕ → Pcb
user_pcb new id dir = record {
  id = id;
  kernel_stack = record { base = new.kernel_stack; top = u32 (new.kernel_stack + page_size) };
  user_stack = record {
    base = user_stack_base;
    top = user_stack_base + user_stack_size - registers_size;
  };
  heap = record { base = user_heap_base; top = user_heap_base };
  state = created;
  parent = null;
  page_dir = dir;
  keybuffer = new.keybuffer;
}

module _ (calloc : Heap → Ptr) (mounts : Mounts) (kdir : ℕ) where
  -- Everything behind the opening of the file. Nothing reads the block before it is complete, so it
  -- is written once.
  unfoldable pub create_from : Space → ℕ → Option Node → Make Ptr
  create_from new dir none = λ s. none
  create_from new dir (some file) = do
    load_code (file.file_size / page_size + 1) 0 file dir
    id ← next_pid
    stack ← on_vm take
    _ ← on_vm (map_page dir user_stack_base stack read_write user_mode)
    fill_stack id kdir stack
    on_kernel (Task.store_pcb new.pcb (user_pcb new id dir))
    on_kernel (add_process calloc new.pcb)
    pure new.pcb

  unfoldable pub create_user_process : Space → List ℕ → Make Ptr
  create_user_process new file_name = do
    dir ← on_vm (create_dir 0)
    on_vm (copy_dir kdir dir)
    create_from new dir (open_file mounts file_name)

  unfoldable pub create_child : Space → List ℕ → Ptr → Make Ptr
  create_child new file_name parent = do
    child ← create_user_process new file_name
    c ← on_kernel (Task.load_pcb child)
    on_kernel (Task.store_pcb child (record c { parent = parent }))
    pure child

  -- The address `halt` is that of `Kernel_halt`.
  unfoldable pub create_kernel_process : Space → ℕ → Make (Unit {0})
  create_kernel_process new halt = do
    id ← next_pid
    let top = u32 (new.kernel_stack + page_size - registers_size)
    copy_registers top (kernel_registers halt)
    on_kernel (λ k. ok tt (record k { kprocess = new.pcb }))
    on_kernel (
        Task.store_pcb new.pcb (record {
          id = id;
          kernel_stack = record { base = new.kernel_stack; top = top };
          user_stack = record { base = null; top = null };
          heap = record { base = null; top = null };
          state = created;
          parent = null;
          page_dir = kdir;
          keybuffer = new.keybuffer;
        }))

  -- `User_switchTo`, up to the jump into the program; the name is that of BASE_APP. It leaves `%esp` at
  -- the top of the user's stack and the new directory in force.
  unfoldable pub switch_to_user : Space → List ℕ → Make (Unit {0})
  switch_to_user new base_app = do
    init ← create_user_process new base_app
    kp ← on_kernel get_kprocess
    on_kernel (add_process calloc kp)
    c ← on_kernel (Task.load_pcb init)
    on_kernel (set_tss seg_kdata c.kernel_stack.top)
    on_kernel (λ k. ok tt (record k { dir = c.page_dir; scheduler_running = true }))
    (λ s.
        some (
          tt,
          record s { esp = c.user_stack.top; vm = record (s.vm) { cr3 = c.page_dir / 2 ^ 12 } },
        ))
