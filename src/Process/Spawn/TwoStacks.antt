-- ===== src/Process/Spawn/TwoStacks.antt =====
-- The stack of the first user process, in its own directory and in the kernel's, which is in force.
use fantom_os.Base.{ℕ, ◌*◌, ◌/◌, ◌^◌, ◌<◌, ◌≡◌, ◌≢◌, inr, ◌∙◌, ap, false, some, arith, List, ◌∷◌}
use fantom_os.HeapMem.Page.{resolve-small}
use fantom_os.VirtMem.{init_entry, map_page}
use fantom_os.VirtMem.Machine.{Entry, Vm, resolve}
use fantom_os.VirtMem.Window.{Windowed}
use fantom_os.VirtMem.Lookup.{lookup}
use fantom_os.VirtMem.Enter.{present-init_entry, page_address-init_entry}
use fantom_os.VirtMem.NewTable.{Fresh}
use fantom_os.VirtMem.Map.{with_supply, lookup_found}
use fantom_os.Process.Spawn.Enters.{
  entering, entering_run, entering-Windowed, entering_dir, entering_table, entering_other,
}
use fantom_os.Process.Spawn.Begun.{IsTable}

module _ (s : Vm) (t kdir dir st stt kt : ℕ) (l : List ℕ) (w : Windowed s t)
    (r : Fresh s t dir 0xBFFFE000 stt) (pos : 0 < st) (small : st < 2 ^ 32)
    (kernel_small : kdir < 2 ^ 32) (kernel_apart : kdir / 2 ^ 12 ≢ t)
    (not_kernel : dir / 2 ^ 12 ≢ kdir / 2 ^ 12) (in_force : s.cr3 ≡ kdir / 2 ^ 12)
    (no_stack : (s.frames (kdir / 2 ^ 12) 767).present ≡ false) (table : IsTable s t dir kt)
    (not_stack : stt / 2 ^ 12 ≢ kt / 2 ^ 12) where
  abbrev pub once : Vm
  once = entering s t dir 0xBFFFE000 stt st (kt ∷ l) w r

  pub once-Windowed : Windowed once t
  once-Windowed = entering-Windowed s t dir 0xBFFFE000 stt st (kt ∷ l) w r

  pub kernel-Fresh : Fresh once t kdir 0xBFFFE000 kt
  kernel-Fresh = record {
    address = kernel_small;
    small = table.small;
    missing =
        ap (λ (e : Entry). e.present)
          (entering_other s t dir 0xBFFFE000 stt st (kt ∷ l) w r (kdir / 2 ^ 12) 767 kernel_apart
            (ground (arith, not_kernel)) (ground (arith, r.in_force, in_force)))
        ∙ no_stack;
    dir_apart = kernel_apart;
    dir_entry = inr (omega arith, omega arith);
    table_apart = table.not_window;
    in_force = table.not_in_force;
    directory = ground (arith, table.not_in_force, in_force);
  }

  abbrev pub twice : Vm
  twice = entering once t kdir 0xBFFFE000 kt st l once-Windowed kernel-Fresh

  pub twice-Windowed : Windowed twice t
  twice-Windowed = entering-Windowed once t kdir 0xBFFFE000 kt st l once-Windowed kernel-Fresh

  pub once_run : map_page dir 0xBFFFE000 st 1 1 (with_supply s (stt ∷ kt ∷ l)) ≡ some (st, once)
  once_run = entering_run s t dir 0xBFFFE000 stt st (kt ∷ l) w r pos

  pub twice_run : map_page kdir 0xBFFFE000 st 1 1 once ≡ some (st, twice)
  twice_run = entering_run once t kdir 0xBFFFE000 kt st l once-Windowed kernel-Fresh pos

  -- The stack's top is reached through the kernel's directory.
  pub top_at : resolve twice 0xBFFFEFB4 ≡ some (st / 2 ^ 12)
  top_at =
      let dir_e = entering_dir once t kdir 0xBFFFE000 kt st l once-Windowed kernel-Fresh 767 in
      let table_e = entering_table once t kdir 0xBFFFE000 kt st l once-Windowed kernel-Fresh in
      resolve-small twice (kdir / 2 ^ 12) 0xBFFFEFB4 (kt / 2 ^ 12) st 1 small in_force
        twice-Windowed.small_pages (ap (λ (e : Entry). e.present) dir_e ∙ present-init_entry kt 1 1)
        (ap (λ (e : Entry). e.page_address) dir_e ∙ page_address-init_entry kt 1 1 table.small)
        table_e

  -- Apart from the tables and the directories of both mappings nothing changes.
  twice_other :
      (f i : ℕ) → f ≢ t → f ≢ kdir / 2 ^ 12 → f ≢ kt / 2 ^ 12 → twice.frames f i ≡ once.frames f i
  twice_other f i a b c =
      entering_other once t kdir 0xBFFFE000 kt st l once-Windowed kernel-Fresh f i a b c

  twice_dir : (i : ℕ) → twice.frames (dir / 2 ^ 12) i ≡ once.frames (dir / 2 ^ 12) i
  twice_dir i = twice_other (dir / 2 ^ 12) i r.dir_apart not_kernel (ground (arith, table.not_dir))

  pub twice_entry : twice.frames (dir / 2 ^ 12) 64 ≡ s.frames (dir / 2 ^ 12) 64
  twice_entry = twice_dir 64 ∙ entering_dir s t dir 0xBFFFE000 stt st (kt ∷ l) w r 64

  pub twice_code :
      (f i : ℕ)
      → f ≢ t
      → f ≢ dir / 2 ^ 12
      → f ≢ stt / 2 ^ 12
      → f ≢ kdir / 2 ^ 12
      → f ≢ kt / 2 ^ 12
      → twice.frames f i ≡ s.frames f i
  twice_code f i a b c d e =
      twice_other f i a d e ∙ entering_other s t dir 0xBFFFE000 stt st (kt ∷ l) w r f i a b c

  pub twice_lookup : lookup twice.frames (dir / 2 ^ 12) 0xBFFFE000 ≡ st / 2 ^ 12 * 2 ^ 12
  twice_lookup =
      let dir_e = twice_dir 767 ∙ entering_dir s t dir 0xBFFFE000 stt st (kt ∷ l) w r 767 in
      let table_e =
        twice_other (stt / 2 ^ 12) 1022 r.table_apart (ground (arith, r.in_force, in_force))
          not_stack
        ∙ entering_table s t dir 0xBFFFE000 stt st (kt ∷ l) w r in
      lookup_found twice.frames (dir / 2 ^ 12) 0xBFFFE000 st 1 1 (init_entry stt 1 1) dir_e
        (present-init_entry stt 1 1)
        (ap (λ (f : ℕ). twice.frames f 1022) (page_address-init_entry stt 1 1 r.small) ∙ table_e)
        small
