-- ===== src/Process/Spawn/Begun.antt =====
-- `Process_createUserProcess` up to the end of the loading of the file.
use fantom_os.Base.{
  Option, false, ℕ, ◌+◌, ◌/◌, ◌^◌, ◌≤◌, ◌<◌, ◌≡◌, ◌≢◌, inl, refl, ◌∙◌, ap, some, arith, List, [],
  ◌∷◌, ◌++◌, length,
}
use fantom_os.NodeHeap.{Ptr, Heap}
use fantom_os.VirtMem.Machine.{Entry, Vm, zeros}
use fantom_os.VirtMem.Window.{Windowed}
use fantom_os.VirtMem.NewTable.{Fresh}
use fantom_os.Vfs.{Node, Mounts, open_file}
use fantom_os.Process.Spawn.{System, Space, load_code, create_user_process, create_from}
use fantom_os.Process.Spawn.NewDir.{
  IsNewDir, create_dir_run, process_dir, process_dir_run, process_dir-Windowed, process_dir_absent,
  process_dir_other,
}
use fantom_os.VirtMem.{init_entry}
use fantom_os.Process.Spawn.Load.{Entries, parts, AllPages}
use fantom_os.Process.Spawn.Made.{load_code-Coded}

-- A page that becomes a table of the new directory.
pub record IsTable (s : Vm) (t dir pt : ℕ) : Type 0 where
  pub small : pt < 2 ^ 32
  pub not_window : pt / 2 ^ 12 ≢ t
  pub not_in_force : pt / 2 ^ 12 ≢ s.cr3
  pub not_dir : pt / 2 ^ 12 ≢ dir / 2 ^ 12

-- The memory before the call: the pages to come are those of the directory, of the code with its
-- table behind the first, and of the stack and its table.
pub record CanCreate (s : Vm) (t kdir dir ct st stt p : ℕ) (ps l : List ℕ) : Type 0 where
  pub windowed : Windowed s t
  pub kernel_small : kdir < 2 ^ 32
  pub kernel_apart : kdir / 2 ^ 12 ≢ t
  pub directory : IsNewDir s t dir
  pub not_kernel : dir / 2 ^ 12 ≢ kdir / 2 ^ 12
  pub code_table : IsTable s t dir ct
  pub stack_table : IsTable s t dir stt
  pub tables : ct / 2 ^ 12 ≢ stt / 2 ^ 12
  pub pages : AllPages (p ∷ ps)
  pub stack_page : AllPages (st ∷ [])
  pub supply : s.supply ≡ dir ∷ p ∷ ct ∷ (ps ++ st ∷ stt ∷ l)

-- What the call has done once the file is loaded, in the memory `s`.
pub record Begun (y : System) (s : Vm) (t dir ct : ℕ) (ps l : List ℕ) : Type 0 where
  pub windowed : Windowed s t
  pub in_force : s.cr3 ≡ y.vm.cr3
  pub supply : s.supply ≡ l
  pub entries : Entries s.frames (ct / 2 ^ 12) 0 ps
  pub code_dir : s.frames (dir / 2 ^ 12) 64 ≡ init_entry ct 1 1
  pub no_stack : (s.frames (dir / 2 ^ 12) 767).present ≡ false
  pub other :
      (f i : ℕ) → f ≢ t → f ≢ dir / 2 ^ 12 → f ≢ ct / 2 ^ 12 → s.frames f i ≡ y.vm.frames f i

-- the state there
abbrev pub begun : System → Vm → Node → List ℕ → System
begun y s file ps = record y { vm = s; writes = y.writes ++ parts file 0 ps }

module _ (calloc : Heap → Ptr) (mounts : Mounts) (y : System) (new : Space) (name : List ℕ)
    (file : Node) (t kdir dir ct st stt p : ℕ) (ps l : List ℕ)
    (c : CanCreate y.vm t kdir dir ct st stt p ps l) where
  abbrev rest : List ℕ
  rest = p ∷ ct ∷ (ps ++ st ∷ stt ∷ l)

  abbrev entered : Vm
  entered =
      process_dir y.vm t dir rest c.windowed c.directory kdir c.kernel_small c.kernel_apart
        c.not_kernel

  entered_absent : (i : ℕ) → i ≢ 768 → i ≢ 769 → i ≢ 1023 → entered.frames (dir / 2 ^ 12) i ≡ zeros
  entered_absent =
      process_dir_absent y.vm t dir rest c.windowed c.directory kdir c.kernel_small c.kernel_apart
        c.not_kernel

  code-Fresh : Fresh entered t dir 0x10000000 ct
  code-Fresh = record {
    address = c.directory.small;
    small = c.code_table.small;
    missing =
        ap (λ (e : Entry). e.present) (entered_absent 64 (omega arith) (omega arith) (omega arith));
    dir_apart = c.directory.not_window;
    dir_entry = inl c.directory.not_in_force;
    table_apart = c.code_table.not_window;
    in_force = c.code_table.not_in_force;
    directory = c.code_table.not_dir;
  }

  -- The call returns what its end returns behind the loading.
  begun_run :
      (r : Option (Ptr × System))
      → open_file mounts name ≡ some file
      → create_from calloc mounts kdir new dir (some file) (record y { vm = entered }) ≡ r
      → create_user_process calloc mounts kdir new name y ≡ r
  unfolding create_user_process
  begun_run r found end =
      let made = create_dir_run y.vm t dir rest c.windowed c.directory c.supply in
      let copied =
        process_dir_run y.vm t dir rest c.windowed c.directory kdir c.kernel_small c.kernel_apart
          c.not_kernel in
      rw (made, copied, found) end

  pub create_user_process-Begun :
      open_file mounts name ≡ some file
      → file.file_size / 4096 + 1 ≡ length (p ∷ ps)
      → length (p ∷ ps) ≤ 1024
      → (s : Vm) × Begun y s t dir ct (p ∷ ps) (st ∷ stt ∷ l)
        × ((r : Option (Ptr × System))
            → ((x : System)
                → load_code (file.file_size / 4096 + 1) 0 file dir x
                  ≡ some (tt, begun y s file (p ∷ ps))
                → create_from calloc mounts kdir new dir (some file) x ≡ r)
            → create_user_process calloc mounts kdir new name y ≡ r)
  create_user_process-Begun found size fits =
      let x : System = record y { vm = entered } in
      let w =
        process_dir-Windowed y.vm t dir rest c.windowed c.directory kdir c.kernel_small
          c.kernel_apart c.not_kernel in
      let g = load_code-Coded x t dir ct p ps (st ∷ stt ∷ l) file w code-Fresh fits c.pages refl in
      let loaded = ap (λ (n : ℕ). load_code n 0 file dir x) size ∙ g.1 in
      (
        g.0,
        record {
          windowed = g.2.windowed;
          in_force = g.2.in_force;
          supply = g.2.supply;
          entries = g.2.entries;
          code_dir = g.2.code_dir;
          no_stack =
              ap (λ (e : Entry). e.present)
                (g.2.dir_same 767 (omega arith)
                  ∙ entered_absent 767 (omega arith) (omega arith) (omega arith));
          other = λ f i a b d.
              g.2.other f i a b d
              ∙ process_dir_other y.vm t dir rest c.windowed c.directory kdir c.kernel_small
                  c.kernel_apart c.not_kernel f i a b;
        },
        λ r end. begun_run r found (end x loaded),
      )
