-- ===== src/NodeHeap.antt =====
-- The heap of list nodes. `calloc` and `free` are dlmalloc's, a library that the kernel links: the
-- address that `calloc` returns is a parameter, and `free` gives a node's cell back.
pub mod Alloc
pub mod FirstFree
pub mod Ran
pub mod Steps
use fantom_os.Base.{ℕ, Option, none, some, ◌==◌, if◌then◌else◌, null}

abbrev pub Ptr : Type 0
Ptr = ℕ

-- `ListNode_t`
pub record ListNode : Type 0 where
  pub payload : ℕ
  pub next_node : Ptr
  pub prev_node : Ptr

abbrev pub node : ℕ → Ptr → Ptr → ListNode
node d n p = record { payload = d; next_node = n; prev_node = p }

abbrev pub Heap : Type 0
Heap = Ptr → Option ListNode

unfoldable pub write : Heap → Ptr → Option ListNode → Heap
write h p c a = if a == p then c else h a

-- `none` is a fault: an access through NULL or to a cell that holds no node.
abbrev pub Cmd : Type 0 → Type 0
Cmd A = Heap → Option (A × Heap)

abbrev pub pure : {A : Type 0} → A → Cmd A
pure a h = some (a, h)

abbrev pub and_then : {A B : Type 0} → Option (A × Heap) → (A → Cmd B) → Option (B × Heap)
and_then none k = none
and_then (some (a, h)) k = k a h

infixl 5 ◌>>=◌ ◌>>◌
abbrev pub ◌>>=◌ : {A B : Type 0} → Cmd A → (A → Cmd B) → Cmd B
m >>= k = λ h. and_then (m h) k

abbrev pub ◌>>◌ : {B : Type 0} → Cmd (Unit {0}) → Cmd B → Cmd B
m >> k = m >>= λ _. k

-- `*p`
unfoldable pub load : Ptr → Cmd ListNode
load p h = if p == null then none else elim (h p) [ none ↦ none | some n ↦ some (n, h) ]

-- `p->nextNode = q` and `p->prevNode = q`
unfoldable pub set_next : Ptr → Ptr → Cmd (Unit {0})
set_next p q = do n ← load p; λ h. some (tt, write h p (some (record n { next_node = q })))

unfoldable pub set_prev : Ptr → Ptr → Cmd (Unit {0})
set_prev p q = do n ← load p; λ h. some (tt, write h p (some (record n { prev_node = q })))

unfoldable pub free : Ptr → Cmd (Unit {0})
free p = do _ ← load p; λ h. some (tt, write h p none)
