-- ===== src/Scheduler/Add.antt =====
-- `Scheduler_addProcess`: a new process waits at the end of the queue.
use fantom_os.Base.{
  ℕ, ◌+◌, ◌^◌, ◌<◌, ◌≡◌, ◌≢◌, ap, null, false, some, List, [], ◌∷◌, ◌++◌, arith, length, ◌==◌,
  if◌then◌else◌, Bool-cases, inl, inr,
}
use fantom_os.NodeHeap.{Ptr, Heap}
use fantom_os.NodeHeap.Alloc.{IsCalloc}
use fantom_os.Task.{Outcome, Kernel, Pcb, created, wait, kassert, load_pcb, store_pcb, put_pcb}
use fantom_os.Task.Did.{Did}
use fantom_os.Scheduler.{add_process, enqueue, is_created, get_list, set_current}
use fantom_os.Scheduler.Laws.{Queue, OnlyQueue, enqueue_lem}

-- What an addition has done: the process waits behind the others, and is the current one if there were
-- none.
pub record Joined (k : Kernel) (ds : List ℕ) (p : Ptr) (c : Pcb) (k' : Kernel) : Type 0 where
  pub queue : Queue k' (ds ++ p ∷ [])
  pub waits : k'.pcb ≡ put_pcb k.pcb p (record c { state = wait })
  pub current : k'.current_process ≡ (if k.process_list.items == 0 then p else k.current_process)

module _ (calloc : Heap → Ptr) (alloc : IsCalloc calloc) (k : Kernel) (ds : List ℕ) (p : Ptr)
    (c : Pcb) where
  -- the state before the queue is written
  abbrev waiting : Ptr → Kernel
  waiting current = record k {
    current_process = current;
    pcb = put_pcb k.pcb p (record c { state = wait });
  }

  enqueued :
      (current : Ptr)
      → Queue k ds
      → calloc k.nodes ≢ null
      → length ds + 1 < 2 ^ 32
      → Did
          (λ _ k'. Queue k' (ds ++ p ∷ []) × OnlyQueue (waiting current) k')
          (enqueue calloc p (waiting current))
  enqueued current q cell room =
      enqueue_lem calloc alloc (waiting current) ds p
        (record { cells = q.cells; words = q.words; list = q.list; view = q.view }) cell room

  add_process_run :
      (r : Outcome (Unit {0}))
      → p ≢ null
      → k.pcb p ≡ some c
      → c.state ≡ created
      → enqueue calloc p (waiting (if k.process_list.items == 0 then p else k.current_process)) ≡ r
      → add_process calloc p k ≡ r
  unfolding add_process is_created get_list set_current kassert load_pcb store_pcb
  add_process_run r ne held state e =
      let there : (p == null) ≡ false = ground (arith, ne) in
      elim (Bool-cases (k.process_list.items == 0)) [
        | inl empty ↦ rw (there, held, state, empty) (rw empty at e)
        | inr more ↦ rw (there, held, state, more) (rw more at e)
      ]

  -- T
  pub add_process-Joined :
      p ≢ null
      → k.pcb p ≡ some c
      → c.state ≡ created
      → Queue k ds
      → calloc k.nodes ≢ null
      → length ds + 1 < 2 ^ 32
      → Did (λ _ k'. Joined k ds p c k') (add_process calloc p k)
  add_process-Joined ne held state q cell room =
      let e = enqueued (if k.process_list.items == 0 then p else k.current_process) q cell room in
      record {
        value = e.value;
        state = e.state;
        returns = add_process_run _ ne held state e.returns;
        post = record {
          queue = e.post.0;
          waits = ap (λ (j : Kernel). j.pcb) e.post.1;
          current = ap (λ (j : Kernel). j.current_process) e.post.1;
        };
      }
