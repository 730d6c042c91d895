-- ===== src/Process/Spawn/Enters.antt =====
-- A page that a new process's directory maps through a new table, for the start of the code and for
-- the stack.
use fantom_os.Base.{
  ℕ, ◌*◌, ◌/◌, ◌^◌, ◌<◌, ◌≡◌, ◌≢◌, inl, refl, some, arith, List, ◌∷◌, ◌==◌, false, if◌then◌else◌,
}
use fantom_os.VirtMem.{init_entry, map_page, dir_index, table_index}
use fantom_os.VirtMem.Machine.{Vm, put}
use fantom_os.VirtMem.Window.{Windowed, with_frames, Windowed-put, shown-Shows}
use fantom_os.VirtMem.Enter.{add_table_Shows}
use fantom_os.VirtMem.NewTable.{Fresh, mapped_new, map_page_new}
use fantom_os.VirtMem.Map.{with_supply, Windowed-with_supply}

module _ (s : Vm) (t dir vaddr pt p : ℕ) (l : List ℕ) (w : Windowed s t)
    (r : Fresh s t dir vaddr pt) where
  -- the state behind the mapping
  abbrev pub entering : Vm
  entering = with_supply (with_frames s (mapped_new s.frames t dir vaddr pt (pt / 2 ^ 12) p 1 1)) l

  pub entering_run : 0 < p → map_page dir vaddr p 1 1 (with_supply s (pt ∷ l)) ≡ some (p, entering)
  entering_run pos =
      let some_page : (p == 0) ≡ false = ground arith in
      let r' : Fresh (with_supply s (pt ∷ l)) t dir vaddr pt = record {
        address = r.address;
        small = r.small;
        missing = r.missing;
        dir_apart = r.dir_apart;
        dir_entry = r.dir_entry;
        table_apart = r.table_apart;
        in_force = r.in_force;
        directory = r.directory;
      } in
      map_page_new {s = with_supply s (pt ∷ l)} {t = t} {p = p} {pt = pt} {l = l} dir vaddr p 1 1
        (Windowed-with_supply (pt ∷ l) w) r' (rw some_page refl)

  pub entering-Windowed : Windowed entering t
  entering-Windowed =
      let sh = shown-Shows dir 0 r.address w in
      let shows =
        add_table_Shows (dir_index vaddr) pt (init_entry pt 1 1) sh r.dir_apart r.dir_entry
          r.table_apart r.in_force in
      let x = pt / 2 ^ 12 in
      Windowed-with_supply l (
        Windowed-put x (table_index vaddr) (init_entry p 1 1)
          (Windowed-put t 0 (init_entry (x * 2 ^ 12) 1 0) shows.windowed (inl w.apart))
          (inl r.in_force))

  pub entering_dir :
      (i : ℕ)
      → entering.frames (dir / 2 ^ 12) i
        ≡ (if dir_index vaddr == i then init_entry pt 1 1 else s.frames (dir / 2 ^ 12) i)
  unfolding put
  entering_dir i = ground (arith, r.dir_apart, r.directory)

  pub entering_table : entering.frames (pt / 2 ^ 12) (table_index vaddr) ≡ init_entry p 1 1
  unfolding put
  entering_table = ground arith

  pub entering_other :
      (f i : ℕ) → f ≢ t → f ≢ dir / 2 ^ 12 → f ≢ pt / 2 ^ 12 → entering.frames f i ≡ s.frames f i
  unfolding put
  entering_other f i a b c = ground arith
