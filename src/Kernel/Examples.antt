-- ===== src/Kernel/Examples.antt =====
-- A start whose sixth module fails, and two boot modules.
use fantom_os.Base.{ℕ, ◌+◌, Bool, true, List, [], ◌∷◌, ltb}
use fantom_os.Multiboot.{MbModule, MultibootInfo}
use fantom_os.Kernel.{Module, Boot, kmain}
use fantom_os.Kernel.Laws.{Started, kmain-Started}

abbrev two_mods : List MbModule
two_mods =
    record { mod_start = 0x200000; mod_end = 0x210000 }
    ∷ record { mod_start = 0x210000; mod_end = 0x220000 }
    ∷ []

abbrev loader_info : MultibootInfo
loader_info = record { mods = two_mods; mmap = [] }

-- counts the modules started; the count 5 is not passed
abbrev fail_after_five : Module → Boot ℕ → Bool × Boot ℕ
fail_after_five m b = (ltb b.state 5, record b { state = b.state + 1 })

abbrev at_power_on : Boot ℕ
at_power_on = record { state = 0; interrupts = true; mb_mods = λ _. 0 }

kmain-Started_example :
    Started fail_after_five loader_info 0x2BADB002 at_power_on
      (kmain fail_after_five loader_info 0x2BADB002 at_power_on)
kmain-Started_example = kmain-Started fail_after_five loader_info 0x2BADB002 at_power_on
