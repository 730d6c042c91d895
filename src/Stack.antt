-- ===== src/Stack.antt =====
-- src/core/data_structs/Stack.c: a bounded stack of 32-bit words in memory.
pub mod Laws
use fantom_os.Base.{ℕ, ◌+◌, ◌*◌, ◌%◌, ◌^◌, leb, ◌==◌, if◌then◌else◌, u32, sub_u32, null}
use fantom_os.Memory.{Mem, store32, load32}

-- `stack_t`
pub record Stack : Type 0 where
  pub base : ℕ
  pub elements : ℕ
  pub max_elements : ℕ

-- the address of an element; `sizeof(void *)` and `sizeof(uint32_t)` are 4
abbrev pub slot : Stack → ℕ → ℕ
slot s i = u32 (s.base + u32 (i * 4))

-- On a full stack the element is dropped.
unfoldable pub push : Stack → Mem → ℕ → Stack × Mem
push s m element =
    if leb (u32 (s.elements + 1)) s.max_elements
    then (record s { elements = u32 (s.elements + 1) }, store32 m (slot s s.elements) element)
    else (s, m)

-- The second test is on an unsigned difference, as the source has it.
unfoldable pub pop : Stack → Mem → ℕ × Stack
pop s m =
    if s.elements == 0
    then (null, s)
    else if leb 0 (sub_u32 s.elements 1)
    then (load32 m (slot s (sub_u32 s.elements 1)), record s { elements = sub_u32 s.elements 1 })
    else (null, s)
