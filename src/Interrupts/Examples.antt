-- ===== src/Interrupts/Examples.antt =====
-- The theorems on interrupts with stubs 16 bytes apart, and at the timer's line.
use fantom_os.Base.{ℕ, ◌+◌, ◌*◌, ◌%◌, ◌^◌, ◌≡◌, null, some, [], ◌∷◌, arith}
use mathlib.Core.Option
use fantom_os.Interrupts.{init, add_irq, handle, call, out}
use fantom_os.Interrupts.Laws.{Installed, init-Installed, handle-add_irq}

abbrev stub_at : ℕ → ℕ
stub_at n = (0xC0100000 + 16 * n) % 2 ^ 32

init-Installed_example : Installed stub_at (init stub_at)
init-Installed_example = init-Installed stub_at (λ n. omega arith)

handle-add_irq_example :
    Option.map (λ hs. handle hs 32) (add_irq 0 0xC0105000 (λ n. null))
    ≡ some (call 0xC0105000 ∷ out (0x20, 0x20) ∷ [])
handle-add_irq_example = handle-add_irq 0 0xC0105000 (λ n. null) (omega arith) (omega arith)
