-- ===== src/Process.antt =====
-- src/modules/processes/Process.c: switching, blocking and ending processes, and PIT_handler of
-- src/modules/processes/Scheduler_RR.c, which calls the switch.
mod Examples
pub mod RoundRobin
pub mod Spawn
pub mod Switch
use fantom_os.Base.{
  ℕ, zero, suc, ◌+◌, ◌%◌, ◌^◌, Bool, true, false, not, Option, none, some, ◌==◌, ltb, ◌&&◌,
  if◌then◌else◌, null, u32,
}
use fantom_os.NodeHeap.{Ptr, Heap}
use fantom_os.LinkedList.{LinkedList}
use fantom_os.Task.{
  Kernel, Pcb, Area, ProcessState, created, wait, active, killed, blocked, Outcome, ok, endless,
  Call, pure, ◌>>=◌, ◌>>◌, load_pcb, store_pcb, is_runnable,
}
use fantom_os.Scheduler.{get_current, next_process, remove_process}

-- `SEG_KDATA`
abbrev pub seg_kdata : ℕ
seg_kdata = 0x10

unfoldable pub get_kprocess : Call Ptr
get_kprocess k = ok k.kprocess k

unfoldable pub set_tss : ℕ → ℕ → Call (Unit {0})
set_tss ss0 esp0 k = ok tt (record k { tss_ss0 = ss0; tss_esp0 = esp0 })

-- `mov …, %DR0`
unfoldable pub set_dr0 : ℕ → Call (Unit {0})
set_dr0 v k = ok tt (record k { dr0 = v })

-- `currentProcess = nextProcess; VirtMem_changeDir(nextProcess->page_dir)`
unfoldable pub enter : Ptr → ℕ → Call (Unit {0})
enter p dir k = ok tt (record k { current_process = p; dir = dir })

is_active : ProcessState → Bool
is_active active = true
is_active _ = false

is_blocked : ProcessState → Bool
is_blocked blocked = true
is_blocked _ = false

-- the outgoing process's saved stack: `regs` goes into the kernel's or the user's stack
abbrev pub save_context : Bool → ℕ → Pcb → Pcb
save_context true regs c = record c {
  kernel_stack = record { base = c.kernel_stack.base; top = regs };
}
save_context false regs c = record c {
  user_stack = record { base = c.user_stack.base; top = regs };
}

-- `if(process->state == PROCESS_STATE_ACTIVE) process->state = PROCESS_STATE_WAIT;` and, two
-- statements later, `process->state = PROCESS_STATE_ACTIVE;` on the same process
unfoldable pub leave : Pcb → Pcb
unfolding is_active
leave c =
    let waiting = if is_active c.state then record c { state = wait } else c in
    record waiting { state = active }

-- The switch from `p` to `q`, once both are known. `regs` is the trap frame's address.
unfoldable pub switch_to : Ptr → Ptr → ℕ → Call (Unit {0})
switch_to p q regs = do
  c ← load_pcb p
  n ← load_pcb q
  kp ← get_kprocess
  kc ← load_pcb kp
  if c.id == n.id then pure tt else (do
    store_pcb p (leave (save_context (c.id == kc.id) regs c))
    n' ← load_pcb q
    (if n'.id == kc.id
        then set_dr0 n'.kernel_stack.top
        else (do set_tss seg_kdata n'.kernel_stack.top; set_dr0 n'.user_stack.top))
    enter q n'.page_dir)

module _ (calloc : Heap → Ptr) where
  -- The loop that takes processes off the front until one may run, on fuel: with every process
  -- blocked or killed it never ends.
  unfoldable pub pick : ℕ → Call Ptr
  pick zero = λ k. endless
  pick (suc n) = do
    p ← next_process calloc
    c ← load_pcb p
    let later : Call Ptr = pick n
    if is_runnable c.state then pure p else later

  -- `Process_contextSwitch`, with as many rounds as there are processes
  unfoldable pub context_switch : ℕ → Call (Unit {0})
  context_switch regs = do
    p ← get_current
    q ← (λ k. pick k.process_list.items k)
    switch_to p q regs

  -- `PIT_handler`: every second tick switches.
  unfoldable pub pit_handler : ℕ → Call (Unit {0})
  pit_handler regs k =
      let ticked = record k { tick = u32 (k.tick + 1) } in
      if k.scheduler_running
      then (if ticked.tick % 2 == 0 then context_switch regs ticked else set_dr0 0 ticked)
      else ok tt k

  -- `Process_fSwitch` raises the timer's interrupt, with `regs` the frame that its stub pushes.
  unfoldable pub f_switch : ℕ → Call (Unit {0})
  f_switch regs = pit_handler regs

  unfoldable pub block_process : ℕ → Call (Unit {0})
  block_process regs = do
    p ← get_current
    c ← load_pcb p
    store_pcb p (record c { state = blocked })
    f_switch regs

  -- `VirtMem_freeDir` has an empty body.
  unfoldable pub kill : ℕ → Ptr → Call (Unit {0})
  unfolding is_blocked
  kill regs p = do
    remove_process calloc p
    c ← load_pcb p
    (if c.parent == null then pure tt else (do
      up ← load_pcb c.parent
      if is_blocked up.state then store_pcb c.parent (record up { state = wait }) else pure tt))
    f_switch regs

  unfoldable pub make_foreground : ℕ → Call (Unit {0})
  make_foreground regs = do
    p ← get_current
    c ← load_pcb p
    (if c.parent == null then pure tt else (do
      up ← load_pcb c.parent
      if ltb 0 up.id then store_pcb c.parent (record up { state = blocked }) else pure tt))
    f_switch regs
