-- ===== src/Scheduler/Laws.antt =====
-- The queue of processes as a list of their addresses.
use fantom_os.Base.{
  ℕ, suc, ◌+◌, ◌^◌, ◌<◌, ◌≡◌, ◌≢◌, refl, sym, subst, null, ◌∙◌, ap, true, List, [], ◌∷◌, ◌++◌,
  arith, ltb, length,
}
use mathlib.Core.Path.{subst₂}
use fantom_os.NodeHeap.{Ptr, Heap}
use fantom_os.NodeHeap.Alloc.{IsCalloc}
use fantom_os.LinkedList.Seg.{Cells, IsList, payloads}
use fantom_os.LinkedList.Add.{add_node-Added}
use fantom_os.LinkedList.Get.{get_node_by_index_lem}
use fantom_os.LinkedList.Remove.{Freed, remove_node-Removed}
use fantom_os.Task.{Kernel, on_nodes, kassert}
use fantom_os.Task.Did.{Did}
use fantom_os.Scheduler.{enqueue, dequeue, next_process}

-- The addresses have 32 bits.
abbrev pub AllWords : Cells → Type 0
AllWords [] = Unit {0}
AllWords ((p, d) ∷ xs) = (p < 2 ^ 32) × AllWords xs

AllWords_snoc : (xs : Cells) (p d : ℕ) → AllWords xs → p < 2 ^ 32 → AllWords (xs ++ (p, d) ∷ [])
AllWords_snoc [] p d w h = (h, tt)
AllWords_snoc (x ∷ xs) p d w h = (w.0, AllWords_snoc xs p d w.1 h)

-- The list nodes stand for the processes `ds`, first to last.
pub record Queue (k : Kernel) (ds : List ℕ) : Type 0 where
  pub cells : Cells
  pub words : AllWords cells
  pub list : IsList k.nodes k.process_list cells
  pub view : payloads cells ≡ ds

-- Nothing but the queue and its nodes differs.
abbrev pub OnlyQueue : Kernel → Kernel → Type 0
OnlyQueue k k' = k' ≡ record k { nodes = k'.nodes; process_list = k'.process_list }

pub OnlyQueue-trans : (k l m : Kernel) → OnlyQueue k l → OnlyQueue l m → OnlyQueue k m
OnlyQueue-trans k l m e f =
    f ∙ ap (λ (s : Kernel). record s { nodes = m.nodes; process_list = m.process_list }) e

payloads-append : (xs ys : Cells) → payloads (xs ++ ys) ≡ payloads xs ++ payloads ys
payloads-append [] ys = refl
payloads-append ((a, d) ∷ xs) ys = ap (λ r. d ∷ r) (payloads-append xs ys)

length-payloads : (xs : Cells) → length (payloads xs) ≡ length xs
length-payloads [] = refl
length-payloads ((a, d) ∷ xs) = ap suc (length-payloads xs)

pub length-Queue : {k : Kernel} (ds : List ℕ) → Queue k ds → k.process_list.items ≡ length ds
length-Queue ds q = omega (arith, q.list.count, length-payloads q.cells, ap length q.view)

module _ (calloc : Heap → Ptr) (alloc : IsCalloc calloc) where
  -- The end of the queue takes one more, if there is a cell to be had.
  pub enqueue_lem :
      (k : Kernel) (ds : List ℕ) (p : ℕ)
      → Queue k ds
      → calloc k.nodes ≢ null
      → length ds + 1 < 2 ^ 32
      → Did (λ _ k'. Queue k' (ds ++ p ∷ []) × OnlyQueue k k') (enqueue calloc p k)
  unfolding enqueue on_nodes
  enqueue_lem k ds p q cell room =
      let item = calloc k.nodes in
      let size = length-payloads q.cells in
      let a =
        add_node-Added item p q.cells cell (alloc.fresh k.nodes cell) q.list
          (omega (arith, size, ap length q.view)) in
      record {
        value = tt;
        state = record k { nodes = a.heap; process_list = a.value };
        returns = rw a.returns;
        post = (
          record {
            cells = q.cells ++ (item, p) ∷ [];
            words = AllWords_snoc q.cells item p q.words (alloc.address k.nodes);
            list = a.post.0;
            view = payloads-append q.cells ((item, p) ∷ []) ∙ ap (λ r. r ++ p ∷ []) q.view;
          },
          refl,
        );
      }

  had_again : (g : Heap) (a : Ptr) → Freed a g → a ≢ null → a < 2 ^ 32 → calloc g ≢ null
  had_again g a f ne w =
      subst (λ h. calloc h ≢ null) (sym f.given_back) (alloc.reuse f.before a f.cell ne w f.held)

  -- The front of the queue is taken off it, and its cell can be had again.
  dequeue_front :
      (k : Kernel) (a d : ℕ) (ys : Cells)
      → AllWords ((a, d) ∷ ys)
      → IsList k.nodes k.process_list ((a, d) ∷ ys)
      → Did
          (λ p k'. (p ≡ d) × Queue k' (payloads ys) × OnlyQueue k k' × (calloc k'.nodes ≢ null))
          (dequeue calloc a k)
  unfolding dequeue on_nodes
  dequeue_front k a d ys w is =
      let r = remove_node-Removed [] a d ys is in
      record {
        value = r.value.0;
        state = record k { nodes = r.heap; process_list = r.value.1 };
        returns = rw r.returns;
        post = (
          r.post.0,
          record { cells = ys; words = w.1; list = r.post.1; view = refl },
          refl,
          had_again r.heap a r.post.2 is.chain.0 w.0,
        );
      }

  -- What a turn of the queue has done.
  abbrev pub Turned : Kernel → ℕ → List ℕ → ℕ → Kernel → Type 0
  Turned k d ds p k' = (p ≡ d) × Queue k' (ds ++ d ∷ []) × OnlyQueue k k'

  next_of_cells :
      (k : Kernel) (a d : ℕ) (ys : Cells)
      → AllWords ((a, d) ∷ ys)
      → IsList k.nodes k.process_list ((a, d) ∷ ys)
      → Did (Turned k d (payloads ys)) (next_process calloc k)
  unfolding next_process on_nodes kassert
  next_of_cells k a d ys w is =
      let some_left : ltb 0 k.process_list.items ≡ true = ground (arith, is.count) in
      let one = dequeue_front k a d ys w is in
      let two =
        enqueue_lem one.state (payloads ys) d one.post.1 one.post.3
          (omega (arith, is.small, length-payloads ys)) in
      record {
        value = d;
        state = two.state;
        returns = rw (
          some_left,
          get_node_by_index_lem ((a, d) ∷ ys) 0 is,
          one.returns,
          one.post.0,
          two.returns,
        );
        post = (refl, two.post.0, OnlyQueue-trans k one.state two.state one.post.2 two.post.1);
      }

  -- With an allocator that meets its laws, on a well-formed queue that is not empty, the
  -- scheduler's step returns the process at the front and moves it to the end; nothing else of
  -- the kernel's state changes.
  pub next_process-Turned :
      (k : Kernel) (d : ℕ) (ds : List ℕ)
      → Queue k (d ∷ ds)
      → Did (Turned k d ds) (next_process calloc k)
  next_process-Turned k d ds q = go q.cells q.words q.list q.view
    where
      go :
          (cells : Cells)
          → AllWords cells
          → IsList k.nodes k.process_list cells
          → payloads cells ≡ d ∷ ds
          → Did (Turned k d ds) (next_process calloc k)
      go [] w is e = absurd (ground arith)
      go ((a, e) ∷ ys) w is same =
          let same_d : e ≡ d = ground arith in
          let same_ds : payloads ys ≡ ds = ground arith in
          subst₂ (λ x xs. Did (Turned k x xs) (next_process calloc k)) same_d same_ds
            (next_of_cells k a e ys w is)
