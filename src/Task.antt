-- ===== src/Task.antt =====
-- Process control blocks (src/include/modules/Process.h) and the part of the kernel's state that the
-- scheduler and the process module share.
pub mod Did
use fantom_os.Base.{ℕ, Bool, true, false, Option, none, some, ◌==◌, ◌||◌, if◌then◌else◌, null}
use fantom_os.NodeHeap.{Ptr, Heap, Cmd}
use fantom_os.LinkedList.{LinkedList}

-- `PROCESS_STATE_CREATED` and so on
pub data ProcessState : Type 0 where
  created wait active killed blocked : ProcessState

-- `Process_stack` and `Process_heap`
pub record Area : Type 0 where
  pub base : ℕ
  pub top : ℕ

-- `pcb_t`, without the title, which nothing reads or writes
pub record Pcb : Type 0 where
  pub id : ℕ
  pub kernel_stack : Area
  pub user_stack : Area
  pub heap : Area
  pub state : ProcessState
  pub parent : Ptr
  pub page_dir : ℕ
  pub keybuffer : Ptr

-- `tss` holds `ss0` and `esp0`, the fields that a switch sets; `dr0` is the register through which
-- the interrupt stub learns the next stack, and `dir` the page directory in force.
pub record Kernel : Type 0 where
  pub nodes : Heap
  pub process_list : LinkedList
  pub current_process : Ptr
  pub scheduler_running : Bool
  pub tick : ℕ
  pub pcb : Ptr → Option Pcb
  pub kprocess : Ptr
  pub tss_ss0 : ℕ
  pub tss_esp0 : ℕ
  pub dr0 : ℕ
  pub dir : ℕ

-- A call returns, or the kernel halts in `Kernel_panic`, or it faults, or it never ends.
pub data Outcome (A : Type 0) : Type 0 where
  ok : A → Kernel → Outcome A
  panic : Outcome A
  fault : Outcome A
  endless : Outcome A

abbrev pub Call : Type 0 → Type 0
Call A = Kernel → Outcome A

abbrev pub pure : {A : Type 0} → A → Call A
pure = ok

module _ {A B : Type 0} where
  abbrev pub and_then : Outcome A → (A → Call B) → Outcome B
  and_then (ok a k) f = f a k
  and_then panic f = panic
  and_then fault f = fault
  and_then endless f = endless

  infixl 5 ◌>>=◌ ◌>>◌
  abbrev pub ◌>>=◌ : Call A → (A → Call B) → Call B
  m >>= f = λ k. and_then (m k) f

  abbrev pub ◌>>◌ : Call A → Call B → Call B
  m >> n = m >>= λ _. n

-- `KASSERT`
unfoldable pub kassert : Bool → Call (Unit {0})
kassert true k = ok tt k
kassert false k = panic

-- a command on the list nodes
abbrev pub settle : {A : Type 0} → Kernel → Option (A × Heap) → Outcome A
settle k none = fault
settle k (some (a, h)) = ok a (record k { nodes = h })

unfoldable pub on_nodes : {A : Type 0} → Cmd A → Call A
on_nodes c k = settle k (c k.nodes)

-- `*process`
abbrev pub fetch : Kernel → Option Pcb → Outcome Pcb
fetch k none = fault
fetch k (some c) = ok c k

unfoldable pub load_pcb : Ptr → Call Pcb
load_pcb p k = if p == null then fault else fetch k (k.pcb p)

unfoldable pub put_pcb : (Ptr → Option Pcb) → Ptr → Pcb → Ptr → Option Pcb
put_pcb f p c q = if p == q then some c else f q

-- `process->… = …`
unfoldable pub store_pcb : Ptr → Pcb → Call (Unit {0})
store_pcb p c k = ok tt (record k { pcb = put_pcb k.pcb p c })

unfoldable pub is_runnable : ProcessState → Bool
is_runnable killed = false
is_runnable blocked = false
is_runnable created = true
is_runnable wait = true
is_runnable active = true
