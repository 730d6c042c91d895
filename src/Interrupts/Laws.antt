-- ===== src/Interrupts/Laws.antt =====
-- What the table holds after the start, and that a registered handler is called and acknowledged.
use fantom_os.Base.{
  ℕ, zero, suc, ◌+◌, ◌*◌, ◌^◌, ◌≤◌, ◌<◌, ◌≡◌, ◌≢◌, subst, inl, inr, Bool-cases, Bool, true, false,
  ◌||◌, ◌&&◌, some, [], ◌∷◌, arith, ltb, leb, ◌==◌, if◌then◌else◌, null,
}
use mathlib.Core.Option
use fantom_os.Pic.{eoi}
use fantom_os.Interrupts.{
  Gate, Table, gate, empty, set, install, install_isr, install_irq, init, Handlers, add_isr,
  add_irq, handle, call, out,
}

install_lem :
    (stub : ℕ → ℕ) (n entry : ℕ) (idt : Table) (i : ℕ)
    → entry + n ≤ 256
    → install stub n entry idt i
      ≡ (if leb entry i && ltb i (entry + n) then gate (stub i) 0x08 0x8E else idt i)
unfolding install set
install_lem stub zero entry idt i h = ground arith
install_lem stub (suc n) entry idt i h =
    ground (arith, install_lem stub n (entry + 1) (set entry (stub entry) 0x08 0x8E idt) i)

-- the address that a gate leads to
abbrev pub target : Gate → ℕ
target g = g.l_off + 2 ^ 16 * g.u_off

-- An interrupt that has a stub: an exception, a line of the controllers, or the system call.
abbrev pub has_stub : ℕ → Bool
has_stub n = ltb n 48 || (n == 128)

-- The selector of the second descriptor of the global table, in ring 0: the kernel's code.
abbrev pub kernel_code : ℕ
kernel_code = 1 * 8 + 0

pub record Installed (stub : ℕ → ℕ) (idt : Table) : Type 0 where
  pub leads : (n : ℕ) → has_stub n ≡ true → target (idt n) ≡ stub n
  pub selector : (n : ℕ) → has_stub n ≡ true → (idt n).sel ≡ kernel_code
  pub zero_byte : (n : ℕ) → has_stub n ≡ true → (idt n).just_zero ≡ 0
  pub ring : (n : ℕ) → has_stub n ≡ true → (idt n).flags ≡ (if n == 128 then 0xEE else 0x8E)
  pub rest : (n : ℕ) → has_stub n ≡ false → idt n ≡ empty

init_lem :
    (stub : ℕ → ℕ) (n : ℕ)
    → init stub n ≡ (
        if n == 128
        then gate (stub 128) 0x08 0xEE
        else if ltb n 48
        then gate (stub n) 0x08 0x8E
        else empty)
unfolding init install_isr install_irq set
init_lem stub n = ground (
  arith,
  install_lem stub 32 0 (λ k. empty) n,
  install_lem stub 16 32 (install stub 32 0 (λ k. empty)) n,
)

halves : (stub : ℕ → ℕ) (n flags : ℕ) → stub n < 2 ^ 32 → target (gate (stub n) 0x08 flags) ≡ stub n
halves stub n flags h = omega arith

-- If every stub has a 32-bit address, the start of the interrupt table leaves, for each
-- exception, each line of the controllers and the system call, a gate that leads to its stub in
-- the kernel's code segment, with the byte between at zero and with the rights of the kernel but
-- for the system call, which user mode may raise; every other gate is empty.
pub init-Installed : (stub : ℕ → ℕ) → ((n : ℕ) → stub n < 2 ^ 32) → Installed stub (init stub)
init-Installed stub small = record {
  leads = λ n h. rw (init_lem stub n) (elim (Bool-cases (n == 128)) [
    | inl last ↦
        let same : 128 ≡ n = ground arith in
        subst
          (λ k.
            target (
              if k == 128
              then gate (stub 128) 0x08 0xEE
              else if ltb k 48
              then gate (stub k) 0x08 0x8E
              else empty)
            ≡ stub k)
          same (halves stub 128 0xEE (small 128))
    | inr line ↦ ground (arith, halves stub n 0x8E (small n))
  ]);
  selector = λ n h. rw (init_lem stub n) (ground arith);
  zero_byte = λ n h. rw (init_lem stub n) (ground arith);
  ring = λ n h. rw (init_lem stub n) (ground arith);
  rest = λ n h. rw (init_lem stub n) (ground arith);
}

-- A handler, not NULL, that is added for one of the 16 lines of the controllers is what an
-- interrupt of that line calls, and then the interrupt is acknowledged, to both controllers for
-- a line of the second.
pub handle-add_irq :
    (irq addr : ℕ) (handlers : Handlers)
    → irq < 16
    → addr ≢ null
    → Option.map (λ hs. handle hs (irq + 32)) (add_irq irq addr handlers)
      ≡ some (
          call addr
          ∷ (if ltb irq 8 then out (0x20, 0x20) ∷ [] else out (0xA0, 0x20) ∷ out (0x20, 0x20) ∷ []))
unfolding add_irq add_isr handle eoi
handle-add_irq irq addr handlers h ne =
    let line : ((32 ≤ irq + 32) × (irq + 32 < 256)) = (omega arith, omega arith) in ground arith
