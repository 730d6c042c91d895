-- ===== src/Process/RoundRobin.antt =====
-- Process_contextSwitch as a whole: the turn of the queue and the switch to the process chosen.
use fantom_os.Base.{ℕ, ◌≡◌, ◌≢◌, ◌∙◌, ap, true, List, ◌==◌, if◌then◌else◌, null, refl}
use fantom_os.NodeHeap.{Ptr}
use fantom_os.Task.{Kernel, Pcb, put_pcb, is_runnable}
use fantom_os.Task.Did.{Did}
use fantom_os.Scheduler.Laws.{Queue}
use fantom_os.Process.{save_context, leave}
use fantom_os.Process.Switch.{Runs, put_pcb_self}

-- What a switch does, seen from the state `k` before it. `p` (block `c`) ran, `d` (block `n`) runs
-- next, `kc` is the kernel's own block, and `queue` is the queue afterwards.
pub record TookTurn (k : Kernel) (p d regs : ℕ) (c n kc : Pcb) (queue : List ℕ) (k' : Kernel)
    : Type 0 where
  pub current : k'.current_process ≡ d
  pub space : k'.dir ≡ n.page_dir
  pub stack : k'.dr0 ≡ (if n.id == kc.id then n.kernel_stack.top else n.user_stack.top)
  pub saved : k'.pcb ≡ put_pcb k.pcb p (leave (save_context (c.id == kc.id) regs c))
  pub turn : Queue k' queue

-- The statement after the switch sets the state of the outgoing process, not of the incoming one: a
-- process that has just blocked itself may run again at once.
pub outgoing-Runs :
    {k k' : Kernel} {p d regs : ℕ} {c n kc : Pcb} {queue : List ℕ}
    → p ≢ null
    → TookTurn k p d regs c n kc queue k'
    → Runs k' true p
unfolding leave is_runnable
outgoing-Runs {k} {p} {regs} {c} {kc} ne t = record {
  not_null = ne;
  cell = leave (save_context (c.id == kc.id) regs c);
  held = ap (λ (f : Ptr → _). f p) t.saved ∙ put_pcb_self k.pcb p _;
  runnable = refl;
}
