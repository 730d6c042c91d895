-- ===== src/NodeHeap/Ran.antt =====
-- Total correctness of a run: no fault, enough fuel, and what holds at the end.
use fantom_os.Base.{◌≡◌, Option, some}
use fantom_os.NodeHeap.{Heap}

pub record Ran {A : Type 0} (P : A → Heap → Type 0) (r : Option (A × Heap)) : Type 0 where
  pub value : A
  pub heap : Heap
  pub returns : r ≡ some (value, heap)
  pub post : P value heap
