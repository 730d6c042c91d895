-- ===== src/NodeHeap/Alloc.antt =====
-- What the kernel relies on of `calloc` and `free`: an address that `calloc` returns, if it is not
-- NULL, holds no node yet, and a node's cell that was given back just before can be had again.
use fantom_os.Base.{◌^◌, ◌<◌, ◌≡◌, ◌≢◌, none, some, null}
use fantom_os.NodeHeap.{Ptr, ListNode, Heap, write}

pub record IsCalloc (calloc : Heap → Ptr) : Type 0 where
  pub address : (h : Heap) → calloc h < 2 ^ 32
  pub fresh : (h : Heap) → calloc h ≢ null → h (calloc h) ≡ none
  pub reuse :
      (h : Heap) (p : Ptr) (n : ListNode)
      → p ≢ null
      → p < 2 ^ 32
      → h p ≡ some n
      → calloc (write h p none) ≢ null
