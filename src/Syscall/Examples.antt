-- ===== src/Syscall/Examples.antt =====
-- System calls into a kernel that counts its calls and adds its first two arguments.
use fantom_os.Base.{ℕ, ◌+◌, ◌≡◌, List, get_or}
use fantom_os.Syscall.{KernelFunction}
use fantom_os.Syscall.Laws.{by_wrapper, in_kernel, create_child, by_wrapper-in_kernel}

abbrev counting : KernelFunction → List ℕ → ℕ → ℕ × ℕ
counting f args calls = (get_or args 0 0 + get_or args 1 0 + calls, calls + 1)

by_wrapper-in_kernel_example :
    by_wrapper counting (create_child 7) 3 ≡ in_kernel counting (create_child 7) 3
by_wrapper-in_kernel_example = by_wrapper-in_kernel counting (create_child 7) 3
