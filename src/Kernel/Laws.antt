-- ===== src/Kernel/Laws.antt =====
-- The start of the kernel's modules, and the addresses of the boot modules.
use fantom_os.Base.{
  ℕ, zero, suc, ◌+◌, ◌<◌, ◌≡◌, ◌≢◌, ◌∙◌, ap, inl, inr, refl, Bool, true, false, List, [], ◌∷◌, ◌++◌,
  get_or, ◌==◌, if◌then◌else◌, arith, Bool-cases,
}
use fantom_os.Multiboot.{MbModule, MultibootInfo}
use fantom_os.Kernel.{
  Slots, store_slot, get_mb_mods_from, get_mb_mods, Module, kernel_mods, Boot, Ended, halted,
  panicked, run_mods, kmain, bootloader_magic,
}

abbrev pub starts : List MbModule → List ℕ
starts [] = []
starts (x ∷ xs) = x.mod_start ∷ starts xs

pub get_mb_mods_from-before :
    (at : ℕ) (xs : List MbModule) (slots : Slots) (j : ℕ)
    → j < at
    → get_mb_mods_from at xs slots j ≡ slots j
unfolding get_mb_mods_from store_slot
get_mb_mods_from-before at [] slots j h = refl
get_mb_mods_from-before at (x ∷ xs) slots j h =
    get_mb_mods_from-before (at + 1) xs (store_slot slots at x.mod_start) j (omega (arith, h))
    ∙ ground (arith, h)

pub get_mb_mods_from-starts :
    (at : ℕ) (xs : List MbModule) (slots : Slots) (j : ℕ)
    → get_mb_mods_from at xs slots (at + j) ≡ get_or (starts xs) j (slots (at + j))
unfolding get_mb_mods_from store_slot
get_mb_mods_from-starts at [] slots j = refl
get_mb_mods_from-starts at (x ∷ xs) slots zero =
    let here : at + 0 ≡ at = omega arith in
    rw here (
      get_mb_mods_from-before (at + 1) xs (store_slot slots at x.mod_start) at (omega arith)
      ∙ ground arith)
get_mb_mods_from-starts at (x ∷ xs) slots (suc j) =
    let next : at + suc j ≡ at + 1 + j = omega arith in
    rw next (
      get_mb_mods_from-starts (at + 1) xs (store_slot slots at x.mod_start) j
      ∙ ap (get_or (starts xs) j) (ground arith))

module _ {S : Type 0} (start : Module → Boot S → Bool × Boot S) where
  -- each module of the list succeeds, one after the other
  pub data AllStart : List Module → Boot S → Boot S → Type 0 where
    none_left : {b : Boot S} → AllStart [] b b
    one_more :
        {m : Module} {ms : List Module} {b c d : Boot S}
        → start m b ≡ (true, c)
        → AllStart ms c d
        → AllStart (m ∷ ms) b d

  -- the start, for a number of the loader, as far as it goes
  pub data Started (mb_info : MultibootInfo) (magic : ℕ) (b : Boot S)
      : Ended (Boot S) → Type 0 where
    all_started :
        (c : Boot S)
        → magic ≡ bootloader_magic
        → AllStart kernel_mods
            (record b { interrupts = false; mb_mods = get_mb_mods mb_info b.mb_mods })
            c
        → Started mb_info magic b (halted (record c { interrupts = true }))
    one_failed :
        (ms later : List Module) (m : Module) (c d : Boot S)
        → magic ≡ bootloader_magic
        → kernel_mods ≡ ms ++ m ∷ later
        → AllStart ms (record b { interrupts = false; mb_mods = get_mb_mods mb_info b.mb_mods }) c
        → start m c ≡ (false, d)
        → Started mb_info magic b (panicked d)
    other_loader : magic ≢ bootloader_magic → Started mb_info magic b (panicked b)

  -- how a list of modules ends
  data Ran (ms : List Module) (b : Boot S) : Bool × Boot S → Type 0 where
    all_ran : (c : Boot S) → AllStart ms b c → Ran ms b (true, record c { interrupts = true })
    stopped :
        (front later : List Module) (m : Module) (c d : Boot S)
        → ms ≡ front ++ m ∷ later
        → AllStart front b c
        → start m c ≡ (false, d)
        → Ran ms b (false, d)

  Ran-more :
      {m : Module} {ms : List Module} {b c : Boot S} {r : Bool × Boot S}
      → start m b ≡ (true, c)
      → Ran ms c r
      → Ran (m ∷ ms) b r
  Ran-more {m} ok (all_ran d rest) = all_ran d (one_more ok rest)
  Ran-more {m} ok (stopped front later n c d at rest bad) =
      stopped (m ∷ front) later n c d (ap (λ (l : List Module). m ∷ l) at) (one_more ok rest) bad

  first-Ran :
      {m : Module} {ms : List Module} {b : Boot S} (r : Bool × Boot S)
      → start m b ≡ r
      → ((c : Boot S) → start m b ≡ (true, c) → Ran ms c (run_mods start ms c))
      → Ran (m ∷ ms) b (if r.0 then run_mods start ms r.1 else (false, r.1))
  first-Ran {m} {ms} {b} (true, c) e later = Ran-more e (later c e)
  first-Ran {m} {ms} {b} (false, c) e later = stopped [] ms m b c refl none_left e

  run_mods-Ran : (ms : List Module) (b : Boot S) → Ran ms b (run_mods start ms b)
  unfolding run_mods
  run_mods-Ran [] b = all_ran b none_left
  run_mods-Ran (m ∷ ms) b = first-Ran (start m b) refl λ c _. run_mods-Ran ms c

  ended :
      {mb_info : MultibootInfo} {magic : ℕ} {b : Boot S} (r : Bool × Boot S)
      → magic ≡ bootloader_magic
      → Ran kernel_mods (record b { interrupts = false; mb_mods = get_mb_mods mb_info b.mb_mods }) r
      → Started mb_info magic b (if r.0 then halted r.1 else panicked r.1)
  ended r same (all_ran c rest) = all_started c same rest
  ended r same (stopped front later m c d at rest bad) =
      one_failed front later m c d same at rest bad

  -- For the loader's number the start of the kernel switches interrupts off and starts its
  -- modules in their order: it ends in the idle loop with interrupts switched on if each start
  -- succeeds, and otherwise panics at the first that fails, with none of the later modules
  -- started; for another number it panics with nothing started.
  pub kmain-Started :
      (mb_info : MultibootInfo) (magic : ℕ) (b : Boot S)
      → Started mb_info magic b (kmain start mb_info magic b)
  unfolding kmain
  kmain-Started mb_info magic b = elim (Bool-cases (magic == bootloader_magic)) [
    | inl same ↦
        let ms = record b { interrupts = false; mb_mods = get_mb_mods mb_info b.mb_mods } in
        rw same (
          ended (run_mods start kernel_mods ms) (ground (arith, same))
            (run_mods-Ran kernel_mods ms))
    | inr other ↦ rw other (other_loader (ground (arith, other)))
  ]
