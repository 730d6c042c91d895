-- ===== src/HeapMem.antt =====
-- src/modules/heapmem_sbrk/HeapMem_SBRK.c: the growth of the kernel's heap and of a process's heap by
-- whole pages. The allocators of malloc.c, which call it, are another project's code.
mod Examples
pub mod Laws
pub mod Page
pub mod Grow
use fantom_os.Base.{
  ℕ, zero, suc, ◌+◌, ◌-◌, ◌*◌, ◌/◌, ◌^◌, ◌≤◌, ◌<◌, Bool, true, false, ◌&&◌, Option, none, some, ltb,
  leb, ◌==◌, if◌then◌else◌, u32, page_size,
}
use fantom_os.VirtMem.{map_page, read_write, kernel_mode}
use fantom_os.VirtMem.Machine.{Vm, Run, pure, no_result, ◌>>=◌, ◌>>◌, clear_frame}

-- `KERNEL_HEAP_BASE`, `KERNEL_HEAP_SIZE_MAX` and `USER_MODE`
abbrev pub kernel_heap_base : ℕ
kernel_heap_base = 0xC0400000

abbrev pub kernel_heap_size_max : ℕ
kernel_heap_size_max = 0x00400000

abbrev pub user_mode : ℕ
user_mode = 1

-- `pages / PAGE_SIZE` of a signed 32-bit word, towards zero: a number of pages to give or to take back
pub data Pages : Type 0 where
  give : ℕ → Pages
  take_back : ℕ → Pages

unfoldable pub pages_of : ℕ → Pages
pages_of word =
    if ltb word (2 ^ 31)
    then give (word / page_size)
    else if (2 ^ 32 - word) / page_size == 0
    then give 0
    else take_back ((2 ^ 32 - word) / page_size)

-- The loop over `n` pages from `top` on, in the directory `dir`: each is mapped to a new page, which is
-- cleared through the directory in force. The result is the new top.
unfoldable pub grow : ℕ → ℕ → ℕ → ℕ → Run ℕ
grow mode zero dir top = pure top
grow mode (suc n) dir top = do
  _ ← map_page dir top 0 read_write mode
  clear_frame top
  grow mode n dir (u32 (top + page_size))

-- What a call returns, and the heap's new top. The comparison of the first panic is on 32 bits; the
-- second panic stands behind an empty statement, and is always met.
unfoldable pub ksbrk : ℕ → ℕ → ℕ → Run (ℕ × ℕ)
ksbrk word dir top = elim (pages_of word) [
  | give n ↦
      if ltb 0 n && ltb (kernel_heap_base + kernel_heap_size_max) (u32 (top + n * page_size))
      then no_result
      else (do top' ← grow kernel_mode n dir top; pure (top, top'))
  | take_back n ↦ no_result
]

unfoldable pub sbrk : ℕ → ℕ → ℕ → Run (ℕ × ℕ)
sbrk word dir top = elim (pages_of word) [
  | give n ↦ do top' ← grow user_mode n dir top; pure (top, top')
  | take_back n ↦ no_result
]
