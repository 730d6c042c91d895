-- ===== src/Interrupts.antt =====
-- src/modules/interrupts/IDT.c: the table of gates, the handlers and the dispatch of an interrupt.
-- The stubs and the handlers are known by their addresses.
mod Examples
pub mod Laws
use fantom_os.Base.{
  ℕ, zero, suc, ◌+◌, ◌/◌, ◌^◌, Bool, true, false, ◌&&◌, not, Option, none, some, List, [], ◌∷◌,
  ◌++◌, map, ltb, leb, ◌==◌, if◌then◌else◌, null, u8, u16,
}
use fantom_os.Pic

-- `struct IDT_entry`
pub record Gate : Type 0 where
  pub l_off : ℕ
  pub sel : ℕ
  pub just_zero : ℕ
  pub flags : ℕ
  pub u_off : ℕ

abbrev pub Table : Type 0
Table = ℕ → Gate

-- `IRQ0`, `IDT_ENTRIES`, `IDT_ACCESS` and `SEG_KCODE`
abbrev pub irq0 : ℕ
irq0 = 32

abbrev pub idt_entries : ℕ
idt_entries = 256

abbrev pub idt_access : ℕ
idt_access = 0x8E

abbrev pub seg_kcode : ℕ
seg_kcode = 0x08

abbrev pub gate : ℕ → ℕ → ℕ → Gate
gate base selector flags = record {
  l_off = u16 base;
  sel = selector;
  just_zero = 0;
  flags = flags;
  u_off = u16 (base / 2 ^ 16);
}

unfoldable pub set : ℕ → ℕ → ℕ → ℕ → Table → Table
set entry base selector flags idt n = if u8 entry == n then gate base selector flags else idt n

-- The calls of `IDT_installISR` and `IDT_installIRQ`, which differ in their numbers: `n` gates from
-- `entry` on, each for its own stub.
unfoldable pub install : (ℕ → ℕ) → ℕ → ℕ → Table → Table
install stub zero entry idt = idt
install stub (suc n) entry idt =
    install stub n (entry + 1) (set entry (stub entry) seg_kcode idt_access idt)

unfoldable pub install_isr : (ℕ → ℕ) → Table → Table
install_isr stub idt = install stub 32 0 idt

unfoldable pub install_irq : (ℕ → ℕ) → Table → Table
install_irq stub idt = set 128 (stub 128) seg_kcode 0xEE (install stub 16 32 idt)

abbrev pub empty : Gate
empty = record { l_off = 0; sel = 0; just_zero = 0; flags = 0; u_off = 0 }

-- the table that `IDT_init` leaves: it is cleared first
unfoldable pub init : (ℕ → ℕ) → Table
init stub = install_irq stub (install_isr stub (λ n. empty))

-- the address of each handler, NULL for none
abbrev pub Handlers : Type 0
Handlers = ℕ → ℕ

unfoldable pub add_isr : ℕ → ℕ → Handlers → Handlers
add_isr isr addr handlers n = if isr == n then addr else handlers n

-- `none` is the panic of `KASSERT`.
unfoldable pub add_irq : ℕ → ℕ → Handlers → Option Handlers
unfolding add_isr
add_irq irq addr handlers =
    if leb irq0 (irq + 32) && ltb (irq + 32) idt_entries
    then some (add_isr (irq + irq0) addr handlers)
    else none

-- what a dispatch does: the fault handler, which prints and panics, a handler at an address, a byte
-- to a port
pub data Event : Type 0 where
  fault : ℕ → Event
  call : ℕ → Event
  out : ℕ × ℕ → Event

-- `IDT_handle`; the fault handler does not return.
unfoldable pub handle : Handlers → ℕ → List Event
handle handlers int_num =
    let addr = handlers int_num in
    if ltb int_num 32 && (addr == null)
    then fault int_num ∷ []
    else (if addr == null then [] else call addr ∷ []) ++ map out (Pic.eoi (u8 int_num))
