-- ===== src/Scheduler.antt =====
-- src/modules/processes/Scheduler_RR.c: the queue of processes. The timer's handler, which switches
-- processes, is in the module Process.
pub mod Laws
pub mod Add
use fantom_os.Base.{
  ℕ, ◌<◌, Bool, true, false, not, Option, none, some, ◌==◌, ltb, if◌then◌else◌, null,
}
use fantom_os.NodeHeap.{Ptr, Heap}
use fantom_os.LinkedList
use fantom_os.LinkedList.{LinkedList}
use fantom_os.Task.{
  Kernel, Pcb, ProcessState, created, wait, killed, Outcome, ok, Call, pure, ◌>>=◌, ◌>>◌, kassert,
  on_nodes, load_pcb, store_pcb,
}

is_created : ProcessState → Bool
is_created created = true
is_created _ = false

-- `Scheduler_RR_init`, less the registration of the timer's handler
unfoldable pub init : Call Bool
init k = ok true (record k {
  scheduler_running = false;
  process_list = LinkedList.create;
  current_process = null;
  tick = 0;
})

unfoldable pub get_current : Call Ptr
get_current k = ok (if k.scheduler_running then k.current_process else null) k

set_list : LinkedList → Call (Unit {0})
set_list l k = ok tt (record k { process_list = l })

get_list : Call LinkedList
get_list k = ok k.process_list k

set_current : Ptr → Call (Unit {0})
set_current p k = ok tt (record k { current_process = p })

-- `calloc` is the allocator's choice of an address for a new node.
module _ (calloc : Heap → Ptr) where
  -- `LinkedList_addNode(process_list, process)`
  unfoldable pub enqueue : Ptr → Call (Unit {0})
  unfolding get_list set_list
  enqueue p = do
    l ← get_list
    l' ← (λ k. on_nodes (LinkedList.add_node (calloc k.nodes) l p) k)
    set_list l'

  -- `LinkedList_removeNode(process_list, …)` of the node at an address
  unfoldable pub dequeue : Ptr → Call Ptr
  unfolding get_list set_list
  dequeue item = do
    l ← get_list
    (d, l') ← on_nodes (LinkedList.remove_node l item)
    set_list l'
    pure d

  unfoldable pub add_process : Ptr → Call (Unit {0})
  unfolding is_created get_list set_current
  add_process p = do
    c ← load_pcb p
    kassert (is_created c.state)
    l ← get_list
    (if l.items == 0 then set_current p else pure tt)
    store_pcb p (record c { state = wait })
    enqueue p

  unfoldable pub remove_process : Ptr → Call (Unit {0})
  unfolding get_list
  remove_process p = do
    c ← load_pcb p
    kassert (not (c.id == 0))
    store_pcb p (record c { state = killed })
    l ← get_list
    item ← on_nodes (LinkedList.get_node_by_data l p)
    _ ← dequeue item
    pure tt

  -- The process at the front of the queue goes to its end.
  unfoldable pub next_process : Call Ptr
  unfolding get_list
  next_process = do
    l ← get_list
    kassert (ltb 0 l.items)
    item ← on_nodes (LinkedList.get_node_by_index l 0)
    p ← dequeue item
    enqueue p
    pure p
