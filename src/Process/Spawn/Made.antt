-- ===== src/Process/Spawn/Made.antt =====
-- `Process_createUserProcess` up to the process's block: its directory, its code and its stack.
use fantom_os.Base.{
  ℕ, suc, ◌/◌, ◌^◌, ◌≤◌, ◌<◌, ◌≡◌, ◌≢◌, refl, ◌∙◌, ap, false, some, arith, ◌==◌, List, [], ◌∷◌,
  ◌++◌, append_assoc, length, if◌then◌else◌, Option,
}
use fantom_os.VirtMem.{init_entry}
use fantom_os.VirtMem.Machine.{Entry, Vm, take, resolve}
use fantom_os.VirtMem.Window.{
  Windowed, shown, map_to_current-shown, shown-Shows, put_other, resolve-window_page, window_page,
}
use fantom_os.VirtMem.Enter.{present-init_entry, page_address-init_entry}
use fantom_os.VirtMem.NewTable.{Fresh}
use fantom_os.Vfs.{Node}
use fantom_os.Process.Spawn.{System, Write, file_part, load_code, vfs_read}
use fantom_os.Process.Spawn.Enters.{
  entering, entering_run, entering-Windowed, entering_dir, entering_table, entering_other,
}
use fantom_os.Process.Spawn.Load.{HasCode, load_code-Loaded, parts, Entries, AllPages}

-- What loading the whole file leaves, with the table of the code on the page `ct`.
pub record Coded (s s' : Vm) (t dir ct : ℕ) (ps l : List ℕ) : Type 0 where
  pub windowed : Windowed s' t
  pub in_force : s'.cr3 ≡ s.cr3
  pub supply : s'.supply ≡ l
  pub entries : Entries s'.frames (ct / 2 ^ 12) 0 ps
  pub code_dir : s'.frames (dir / 2 ^ 12) 64 ≡ init_entry ct 1 1
  pub dir_same : (i : ℕ) → i ≢ 64 → s'.frames (dir / 2 ^ 12) i ≡ s.frames (dir / 2 ^ 12) i
  pub other : (f i : ℕ) → f ≢ t → f ≢ dir / 2 ^ 12 → f ≢ ct / 2 ^ 12 → s'.frames f i ≡ s.frames f i

module _ (s : Vm) (t dir ct p : ℕ) (l : List ℕ) (w : Windowed s t) (r : Fresh s t dir 0x10000000 ct)
    (pos : 0 < p) (small : p < 2 ^ 32) where
  abbrev first : Vm
  first = entering s t dir 0x10000000 ct p l w r

  abbrev first_shown : Vm
  first_shown = shown first t p 8

  first_at : resolve first_shown (window_page 8) ≡ some (p / 2 ^ 12)
  first_at =
      resolve-window_page (omega arith)
        (shown-Shows p 8 small (entering-Windowed s t dir 0x10000000 ct p l w r))

  first_dir :
      (i : ℕ)
      → first_shown.frames (dir / 2 ^ 12) i
        ≡ (if 64 == i then init_entry ct 1 1 else s.frames (dir / 2 ^ 12) i)
  first_dir i =
      put_other first.frames t 8 (init_entry p 1 0) (dir / 2 ^ 12) i (ground (arith, r.dir_apart))
      ∙ entering_dir s t dir 0x10000000 ct p l w r i

  first_table : first_shown.frames (ct / 2 ^ 12) 0 ≡ init_entry p 1 1
  first_table =
      put_other first.frames t 8 (init_entry p 1 0) (ct / 2 ^ 12) 0 (ground (arith, r.table_apart))
      ∙ entering_table s t dir 0x10000000 ct p l w r

  first_other :
      (f i : ℕ) → f ≢ t → f ≢ dir / 2 ^ 12 → f ≢ ct / 2 ^ 12 → first_shown.frames f i ≡ s.frames f i
  first_other f i a b d =
      put_other first.frames t 8 (init_entry p 1 0) f i (ground (arith, a))
      ∙ entering_other s t dir 0x10000000 ct p l w r f i a b d

  first-HasCode : HasCode first_shown t dir (ct / 2 ^ 12)
  first-HasCode = record {
    windowed = (shown-Shows p 8 small (entering-Windowed s t dir 0x10000000 ct p l w r)).windowed;
    address = r.address;
    there = ap (λ (e : Entry). e.present) (first_dir 64) ∙ present-init_entry ct 1 1;
    table =
        ap (λ (e : Entry). e.page_address) (first_dir 64) ∙ page_address-init_entry ct 1 1 r.small;
    width = omega (arith, r.small);
    dir_apart = r.dir_apart;
    not_window = r.table_apart;
    not_dir = r.directory;
    not_in_force = r.in_force;
  }

first_step :
    (y : System) (t dir ct p n : ℕ) (l : List ℕ) (file : Node) (r : Option (Unit {0} × System))
    (w : Windowed y.vm t) (f : Fresh y.vm t dir 0x10000000 ct) (pos : 0 < p) (small : p < 2 ^ 32)
    → y.vm.supply ≡ p ∷ ct ∷ l
    → load_code n 1 file dir (record y {
      vm = first_shown y.vm t dir ct p l w f pos small;
      writes = y.writes ++ file_part (p / 2 ^ 12) 0 file 4096 0 ∷ [];
    })
      ≡ r
    → load_code (suc n) 0 file dir y ≡ r
unfolding load_code take vfs_read
first_step y t dir ct p n l file r w f pos small supply rest =
    rw
      (
        supply,
        entering_run y.vm t dir 0x10000000 ct p l w f pos,
        map_to_current-shown {s = first y.vm t dir ct p l w f pos small} p 8
            (entering-Windowed y.vm t dir 0x10000000 ct p l w f),
        first_at y.vm t dir ct p l w f pos small,
      )
      rest

-- T
pub load_code-Coded :
    (y : System) (t dir ct p : ℕ) (ps l : List ℕ) (file : Node)
    → Windowed y.vm t
    → Fresh y.vm t dir 0x10000000 ct
    → length (p ∷ ps) ≤ 1024
    → AllPages (p ∷ ps)
    → y.vm.supply ≡ p ∷ ct ∷ (ps ++ l)
    → (s' : Vm) × (load_code (length (p ∷ ps)) 0 file dir y
        ≡ some (tt, record y { vm = s'; writes = y.writes ++ parts file 0 (p ∷ ps) }))
      × Coded y.vm s' t dir ct (p ∷ ps) l
load_code-Coded y t dir ct p ps l file w f fits pages supply =
    let next = first_shown y.vm t dir ct p (ps ++ l) w f pages.0 pages.1 in
    let w₁ = file_part (p / 2 ^ 12) 0 file 4096 0 in
    let y' : System = record y { vm = next; writes = y.writes ++ w₁ ∷ [] } in
    let code = first-HasCode y.vm t dir ct p (ps ++ l) w f pages.0 pages.1 in
    let rest =
      load_code-Loaded y' t dir (ct / 2 ^ 12) 1 ps l file code (omega arith) pages.2 refl in
    let joined = append_assoc y.writes (w₁ ∷ []) (parts file 1 ps) in
    let dir_e = first_dir y.vm t dir ct p (ps ++ l) w f pages.0 pages.1 in
    let g = rest.2 in
    (
      rest.0,
      first_step y t dir ct p (length ps) (ps ++ l) file _ w f pages.0 pages.1 supply (
          rest.1
          ∙ ap (λ (ws : List Write). some (tt, record y { vm = rest.0; writes = ws })) joined),
      record {
        windowed = g.code.windowed;
        in_force = g.in_force;
        supply = g.supply;
        entries = (
          g.below 0 (omega arith) ∙ first_table y.vm t dir ct p (ps ++ l) w f pages.0 pages.1,
          g.entries,
        );
        code_dir = g.dir_same 64 ∙ dir_e 64;
        other = λ k i a b d.
            g.other k i a d ∙ first_other y.vm t dir ct p (ps ++ l) w f pages.0 pages.1 k i a b d;
        dir_same = λ i ne.
            let other : (64 == i) ≡ false = ground arith in g.dir_same i ∙ dir_e i ∙ rw other refl;
      },
    )
