-- ===== src/Kernel.antt =====
-- src/core/boot/Kernel.c: the check of the loader's number, the addresses of the boot modules, and the
-- start of the kernel's modules in their order.
mod Examples
pub mod Laws
use fantom_os.Base.{
  ℕ, zero, suc, ◌+◌, ◌<◌, Bool, true, false, List, [], ◌∷◌, ◌==◌, if◌then◌else◌, map,
}
use fantom_os.Multiboot.{MbModule, MultibootInfo}

-- `MULTIBOOT_BOOTLOADER_MAGIC`
abbrev pub bootloader_magic : ℕ
bootloader_magic = 0x2BADB002

abbrev pub valid_magic : ℕ → Bool
valid_magic magic = if magic == bootloader_magic then true else false

-- `mb_mods` as a function from its indices; those from `MAX_MB_MODS` on lie behind the array.
abbrev pub max_mb_mods : ℕ
max_mb_mods = 5

abbrev pub Slots : Type 0
Slots = ℕ → ℕ

unfoldable pub store_slot : Slots → ℕ → ℕ → Slots
store_slot slots i v j = if i == j then v else slots j

-- `for(mod = 0 ; mod < mb_info->mods_count ; mod++)`, from the module `at` on
unfoldable pub get_mb_mods_from : ℕ → List MbModule → Slots → Slots
get_mb_mods_from at [] slots = slots
get_mb_mods_from at (x ∷ xs) slots = get_mb_mods_from (at + 1) xs (store_slot slots at x.mod_start)

abbrev pub get_mb_mods : MultibootInfo → Slots → Slots
get_mb_mods mb_info slots = get_mb_mods_from 0 mb_info.mods slots

-- the modules of the kernel, in the order of `Kernel_addKenrelMods`
pub data Module : Type 0 where
  serial : Module
  vga : Module
  gdt : Module
  idt : Module
  pic : Module
  pit : Module
  ps2 : Module
  phys_mem_hybrid : Module
  virt_mem_paging : Module
  heap_mem_sbrk : Module
  vfs : Module
  ram_disk : Module
  keyboard : Module
  scheduler_rr : Module
  process : Module
  user : Module

abbrev pub kernel_mods : List Module
kernel_mods =
    serial ∷ vga ∷ gdt ∷ idt ∷ pic ∷ pit ∷ ps2 ∷ phys_mem_hybrid ∷ virt_mem_paging ∷ heap_mem_sbrk
    ∷ vfs ∷ ram_disk ∷ keyboard ∷ scheduler_rr ∷ process ∷ user ∷ []

-- How a start ends: the idle loop, or a panic, with what the kernel has become.
pub data Ended (S : Type 0) : Type 0 where
  halted : S → Ended S
  panicked : S → Ended S

-- The state that the modules work on, the flag of the processor for interrupts, and `mb_mods`.
pub record Boot (S : Type 0) : Type 0 where
  pub state : S
  pub interrupts : Bool
  pub mb_mods : Slots

-- the modules over what each one's start does and returns
module _ {S : Type 0} (start : Module → Boot S → Bool × Boot S) where
  unfoldable pub run_mods : List Module → Boot S → Bool × Boot S
  run_mods [] b = (true, record b { interrupts = true })
  run_mods (m ∷ ms) b =
      let (done, b') = start m b in let rest = run_mods ms b' in if done then rest else (false, b')

  abbrev pub init_mods : List Module → Boot S → Bool × Boot S
  init_mods ms b = run_mods ms (record b { interrupts = false })

  -- A panic ends in the idle loop too, behind its message.
  unfoldable pub kmain : MultibootInfo → ℕ → Boot S → Ended (Boot S)
  kmain mb_info magic b =
      let (done, b') =
        init_mods kernel_mods (record b { mb_mods = get_mb_mods mb_info b.mb_mods }) in
      if valid_magic magic then (if done then halted b' else panicked b') else panicked b
