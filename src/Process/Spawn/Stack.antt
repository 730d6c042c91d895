-- ===== src/Process/Spawn/Stack.antt =====
-- The stack of a new process that is not the first, and what its directory leads to in the end.
use fantom_os.Base.{
  ℕ, ◌+◌, ◌*◌, ◌/◌, ◌%◌, ◌^◌, ◌≤◌, ◌<◌, ◌≡◌, ◌≢◌, refl, ◌∙◌, ap, false, some, arith, ◌==◌, List, [],
  ◌∷◌, length,
}
use fantom_os.VirtMem.{init_entry, map_page, map_to_current, dir_index, table_index}
use fantom_os.VirtMem.Machine.{Frames, Vm, resolve}
use fantom_os.VirtMem.Window.{Windowed, Shows, shown, map_to_current-shown, shown-Shows, put_other}
use fantom_os.VirtMem.Lookup.{lookup}
use fantom_os.VirtMem.Enter.{present-init_entry, page_address-init_entry}
use fantom_os.VirtMem.NewTable.{Fresh}
use fantom_os.VirtMem.Map.{with_supply, lookup_found}
use fantom_os.Process.Spawn.Enters.{
  entering, entering_run, entering-Windowed, entering_dir, entering_table, entering_other,
}
use fantom_os.Process.Spawn.Load.{Entries, AllPages, code_page}

-- An address of the page 0 of the window, wherever it stands in the page.
resolve-window_byte :
    {s : Vm} {t f : ℕ} (off : ℕ)
    → off < 4096
    → Shows s t 0 f
    → resolve s (0xC0000000 + off) ≡ some f
unfolding resolve
resolve-window_byte {s} {t} off h sh =
    let dir : (0xC0000000 + off) / 2 ^ 22 ≡ 768 = omega arith in
    let table : (0xC0000000 + off) / 2 ^ 12 % 1024 ≡ 0 = omega arith in
    rw (
      dir, table, sh.windowed.small_pages, sh.windowed.window_there, sh.windowed.window_frame,
      sh.there, sh.frame,
    )

pub Entries-same :
    (fs gs : Frames) (c i : ℕ) (ps : List ℕ)
    → ((j : ℕ) → gs c j ≡ fs c j)
    → Entries fs c i ps
    → Entries gs c i ps
Entries-same fs gs c i [] same e = tt
Entries-same fs gs c i (p ∷ ps) same e = (same i ∙ e.0, Entries-same fs gs c (i + 1) ps same e.1)

-- The directory at the frame `d` leads the code's addresses from the `i`th page on to the pages.
abbrev pub CodeAt : Frames → ℕ → ℕ → List ℕ → Type 0
CodeAt fs d i [] = Unit {0}
CodeAt fs d i (p ∷ ps) = (lookup fs d (code_page i) ≡ p / 2 ^ 12 * 2 ^ 12) × CodeAt fs d (i + 1) ps

pub Entries-CodeAt :
    (fs : Frames) (d ct i : ℕ) (ps : List ℕ)
    → ct < 2 ^ 32
    → fs d 64 ≡ init_entry ct 1 1
    → i + length ps ≤ 1024
    → AllPages ps
    → Entries fs (ct / 2 ^ 12) i ps
    → CodeAt fs d i ps
Entries-CodeAt fs d ct i [] small dir fits pages e = tt
Entries-CodeAt fs d ct i (p ∷ ps) small dir fits pages e =
    let di : dir_index (code_page i) ≡ 64 = omega arith in
    let ti : table_index (code_page i) ≡ i = omega arith in
    let entry =
      ap (λ (f : ℕ). fs f (table_index (code_page i))) (page_address-init_entry ct 1 1 small)
      ∙ ap (fs (ct / 2 ^ 12)) ti
      ∙ e.0 in
    (
      lookup_found fs d (code_page i) p 1 1 (init_entry ct 1 1) (ap (fs d) di ∙ dir)
          (present-init_entry ct 1 1) entry pages.1,
      Entries-CodeAt fs d ct (i + 1) ps small dir (omega arith) pages.2 e.1,
    )

module _ (s : Vm) (t dir st stt : ℕ) (l : List ℕ) (w : Windowed s t)
    (r : Fresh s t dir 0xBFFFE000 stt) (pos : 0 < st) (small : st < 2 ^ 32) where
  abbrev with_stack : Vm
  with_stack = entering s t dir 0xBFFFE000 stt st l w r

  abbrev pub stacked : Vm
  stacked = shown with_stack t st 0

  pub stack_run : map_page dir 0xBFFFE000 st 1 1 (with_supply s (stt ∷ l)) ≡ some (st, with_stack)
  stack_run = entering_run s t dir 0xBFFFE000 stt st l w r pos

  pub show_stack : map_to_current st 0 with_stack ≡ some (0xC0000000, stacked)
  show_stack = map_to_current-shown st 0 (entering-Windowed s t dir 0xBFFFE000 stt st l w r)

  stacked-Shows : Shows stacked t 0 (st / 2 ^ 12)
  stacked-Shows = shown-Shows st 0 small (entering-Windowed s t dir 0xBFFFE000 stt st l w r)

  pub stacked-Windowed : Windowed stacked t
  stacked-Windowed = stacked-Shows.windowed

  pub stack_at : resolve stacked (0xC0000000 + 4020) ≡ some (st / 2 ^ 12)
  stack_at = resolve-window_byte 4020 (omega arith) stacked-Shows

  pub stacked_dir : (i : ℕ) → i ≢ 767 → stacked.frames (dir / 2 ^ 12) i ≡ s.frames (dir / 2 ^ 12) i
  stacked_dir i ne =
      let other : (767 == i) ≡ false = ground arith in
      put_other with_stack.frames t 0 (init_entry st 1 0) (dir / 2 ^ 12) i
        (ground (arith, r.dir_apart))
      ∙ entering_dir s t dir 0xBFFFE000 stt st l w r i
      ∙ rw other refl

  pub stacked_other :
      (f i : ℕ) → f ≢ t → f ≢ dir / 2 ^ 12 → f ≢ stt / 2 ^ 12 → stacked.frames f i ≡ s.frames f i
  stacked_other f i a b c =
      put_other with_stack.frames t 0 (init_entry st 1 0) f i (ground (arith, a))
      ∙ entering_other s t dir 0xBFFFE000 stt st l w r f i a b c

  pub stacked_lookup : lookup stacked.frames (dir / 2 ^ 12) 0xBFFFE000 ≡ st / 2 ^ 12 * 2 ^ 12
  stacked_lookup =
      let dir_e : stacked.frames (dir / 2 ^ 12) 767 ≡ init_entry stt 1 1 =
        put_other with_stack.frames t 0 (init_entry st 1 0) (dir / 2 ^ 12) 767
          (ground (arith, r.dir_apart))
        ∙ entering_dir s t dir 0xBFFFE000 stt st l w r 767 in
      let table_e : stacked.frames (stt / 2 ^ 12) 1022 ≡ init_entry st 1 1 =
        put_other with_stack.frames t 0 (init_entry st 1 0) (stt / 2 ^ 12) 1022
          (ground (arith, r.table_apart))
        ∙ entering_table s t dir 0xBFFFE000 stt st l w r in
      lookup_found stacked.frames (dir / 2 ^ 12) 0xBFFFE000 st 1 1 (init_entry stt 1 1) dir_e
        (present-init_entry stt 1 1)
        (ap (λ (f : ℕ). stacked.frames f 1022) (page_address-init_entry stt 1 1 r.small) ∙ table_e)
        small
