-- ===== src/VirtMem/NewTable.antt =====
-- `VirtMem_mapPage` where the directory has no table for the address yet.
use fantom_os.Base.{
  ℕ, ◌*◌, ◌/◌, ◌^◌, ◌<◌, ◌≡◌, ◌≢◌, ◌⊎◌, inl, refl, ◌∙◌, ap, Bool, false, ◌||◌, ◌==◌, if◌then◌else◌,
  some, arith, List, ◌∷◌,
}
use fantom_os.VirtMem.{init_entry, dir_index, table_index, given, map_page}
use fantom_os.VirtMem.Machine.{Frames, Vm, put, zeros}
use fantom_os.VirtMem.Window.{
  Windowed, Shows, with_frames, put_other, put_here, map_to_current-shown, shown-Shows,
  Windowed-put, read-window_page, write-window_page,
}
use fantom_os.VirtMem.Enter.{
  entered, add_table_Shows, add_table_run, entered_here, present-init_entry,
  page_address-init_entry,
}
use fantom_os.VirtMem.Lookup.{lookup, Returned, in_window}
use fantom_os.VirtMem.Map.{with_supply, Windowed-with_supply, lookup_found, entry_at}

-- The page `pt` for the new table and the directory are apart from what the kernel works through.
pub record Fresh (s : Vm) (t dir vaddr pt : ℕ) : Type 0 where
  pub address : dir < 2 ^ 32
  pub small : pt < 2 ^ 32
  pub missing : (s.frames (dir / 2 ^ 12) (dir_index vaddr)).present ≡ false
  pub dir_apart : dir / 2 ^ 12 ≢ t
  pub dir_entry : (dir / 2 ^ 12 ≢ s.cr3) ⊎ ((dir_index vaddr ≢ 1023) × (dir_index vaddr ≢ 768))
  pub table_apart : pt / 2 ^ 12 ≢ t
  pub in_force : pt / 2 ^ 12 ≢ s.cr3
  pub directory : pt / 2 ^ 12 ≢ dir / 2 ^ 12

-- the frames after the mapping
abbrev pub mapped_new : Frames → ℕ → ℕ → ℕ → ℕ → ℕ → ℕ → ℕ → ℕ → Frames
mapped_new fs t dir vaddr pt x p read_write priv =
    let one = put fs t 0 (init_entry dir 1 0) in
    let four = entered one t (dir / 2 ^ 12) (dir_index vaddr) pt (init_entry pt read_write priv) in
    let five = put four t 0 (init_entry (x * 2 ^ 12) 1 0) in
    put five x (table_index vaddr) (init_entry p read_write priv)

pub map_page_new :
    {s : Vm} {t p pt : ℕ} {l : List ℕ} (dir vaddr paddr read_write priv : ℕ)
    → Windowed s t
    → Fresh s t dir vaddr pt
    → given paddr s ≡ some (p, with_supply s (pt ∷ l))
    → map_page dir vaddr paddr read_write priv s
      ≡ some (
        p,
        with_supply
            (with_frames s (mapped_new s.frames t dir vaddr pt (pt / 2 ^ 12) p read_write priv))
            l,
      )
unfolding map_page
map_page_new {s} {t} {p} {pt} {l} dir vaddr paddr read_write priv w r taken =
    let d = dir / 2 ^ 12 in
    let w₀ = Windowed-with_supply (pt ∷ l) w in
    let first = shown-Shows dir 0 r.address w₀ in
    let dir_same =
      put_other s.frames t 0 (init_entry dir 1 0) d (dir_index vaddr)
        (ground (arith, r.dir_apart)) in
    let fs = put s.frames t 0 (init_entry dir 1 0) in
    let sh : Shows (with_supply (with_frames s fs) l) t 0 d = record {
      windowed = Windowed-with_supply l first.windowed;
      there = first.there;
      frame = first.frame;
    } in
    let e = init_entry pt read_write priv in
    let shows =
      add_table_Shows (dir_index vaddr) pt e sh r.dir_apart r.dir_entry r.table_apart r.in_force in
    let page = page_address-init_entry pt read_write priv r.small in
    let back : e.page_address * 2 ^ 12 / 2 ^ 12 ≡ e.page_address = omega arith in
    let last =
      shown-Shows (e.page_address * 2 ^ 12) 0 (omega (arith, r.small, page)) shows.windowed in
    rw
      (
        taken,
        map_to_current-shown dir 0 w₀,
        read-window_page (dir_index vaddr) (omega arith) first,
        dir_same,
        r.missing,
        add_table_run l (dir_index vaddr) read_write priv sh r.dir_apart r.dir_entry r.small,
        read-window_page (dir_index vaddr) (omega arith) shows,
        entered_here fs t d (dir_index vaddr) pt e r.dir_apart r.directory,
        map_to_current-shown (e.page_address * 2 ^ 12) 0 shows.windowed,
        write-window_page (table_index vaddr) (omega arith) last (init_entry p read_write priv),
        back,
      )
      (ap
        (λ (x : ℕ). some (
          p,
          with_supply (with_frames s (mapped_new s.frames t dir vaddr pt x p read_write priv)) l,
        ))
        page)

-- the entries that the mapping may change
abbrev pub new_changes : ℕ → ℕ → ℕ → ℕ → ℕ → ℕ → Bool
new_changes t d vaddr x f i =
    in_window t 0 f i
    || (in_window t 4 f i
        || (entry_at d (dir_index vaddr) f i
            || (entry_at x 0 f i || entry_at x (table_index vaddr) f i)))

mapped_new_same :
    (fs : Frames) (t dir vaddr pt p read_write priv f i : ℕ)
    → new_changes t (dir / 2 ^ 12) vaddr (pt / 2 ^ 12) f i ≡ false
    → mapped_new fs t dir vaddr pt (pt / 2 ^ 12) p read_write priv f i ≡ fs f i
unfolding put
mapped_new_same fs t dir vaddr pt p read_write priv f i differs = ground (arith, differs)

first_entry :
    (fs : Frames) (t dir vaddr pt p read_write priv : ℕ)
    → pt / 2 ^ 12 ≢ t
    → mapped_new fs t dir vaddr pt (pt / 2 ^ 12) p read_write priv (pt / 2 ^ 12) 0
      ≡ (if table_index vaddr == 0 then init_entry p read_write priv else zeros)
unfolding put
first_entry fs t dir vaddr pt p read_write priv apart = ground (arith, apart)

-- With the kernel's window set up, a directory at a 32-bit address without a table for an
-- address, no entry of the window in the directory in force at stake, and a page for the table
-- apart from the directories and the window, mapping a page of 32 bits takes that page for the
-- table, enters it in the directory, clears the table's first entry, and from then on the
-- directory leads the address to the page mapped. No entry changes but the pages 0 and 4 of the
-- window, the directory's entry, and the first and the address's entry of the new table; the
-- others keep what the page held.
pub map_page-new_table :
    {s : Vm} {t p pt : ℕ} {l : List ℕ} (dir vaddr paddr read_write priv : ℕ)
    → Windowed s t
    → Fresh s t dir vaddr pt
    → given paddr s ≡ some (p, with_supply s (pt ∷ l))
    → p < 2 ^ 32
    → Returned s t
        (new_changes t (dir / 2 ^ 12) vaddr (pt / 2 ^ 12))
        (λ q s'.
          (q ≡ p)
          × (s'.supply ≡ l)
          × (s'.frames (dir / 2 ^ 12) (dir_index vaddr) ≡ init_entry pt read_write priv)
          × (s'.frames (pt / 2 ^ 12) 0
              ≡ (if table_index vaddr == 0 then init_entry p read_write priv else zeros))
          × (lookup s'.frames (dir / 2 ^ 12) vaddr ≡ p / 2 ^ 12 * 2 ^ 12))
        (map_page dir vaddr paddr read_write priv s)
map_page-new_table {s} {t} {p} {pt} {l} dir vaddr paddr read_write priv w r taken small =
    let d = dir / 2 ^ 12 in
    let x = pt / 2 ^ 12 in
    let e = init_entry p read_write priv in
    let one = put s.frames t 0 (init_entry dir 1 0) in
    let four = entered one t d (dir_index vaddr) pt (init_entry pt read_write priv) in
    let five = put four t 0 (init_entry (x * 2 ^ 12) 1 0) in
    let sh = shown-Shows dir 0 r.address w in
    let shows =
      add_table_Shows (dir_index vaddr) pt (init_entry pt read_write priv) sh r.dir_apart
        r.dir_entry r.table_apart r.in_force in
    let w' : Windowed
        (with_supply
          (with_frames s (mapped_new s.frames t dir vaddr pt (pt / 2 ^ 12) p read_write priv)) l)
        t =
      Windowed-with_supply l (
        Windowed-put x (table_index vaddr) e
          (Windowed-put t 0 (init_entry (x * 2 ^ 12) 1 0) shows.windowed (ground (arith, w.apart)))
          (inl r.in_force)) in
    let dir_e : mapped_new s.frames t dir vaddr pt (pt / 2 ^ 12) p read_write priv d
          (dir_index vaddr)
        ≡ init_entry pt read_write priv =
      put_other five x (table_index vaddr) e d (dir_index vaddr) (inl r.directory)
      ∙ put_other four t 0 (init_entry (x * 2 ^ 12) 1 0) d (dir_index vaddr)
          (ground (arith, r.dir_apart))
      ∙ entered_here one t d (dir_index vaddr) pt (init_entry pt read_write priv) r.dir_apart
          r.directory in
    let table_e : mapped_new s.frames t dir vaddr pt (pt / 2 ^ 12) p read_write priv
          (init_entry pt read_write priv).page_address (table_index vaddr)
        ≡ e =
      ap
        (λ (f : ℕ).
          mapped_new s.frames t dir vaddr pt (pt / 2 ^ 12) p read_write priv f (table_index vaddr))
        (page_address-init_entry pt read_write priv r.small)
      ∙ put_here five x (table_index vaddr) e in
    record {
      value = p;
      state =
          with_supply
            (with_frames s (mapped_new s.frames t dir vaddr pt (pt / 2 ^ 12) p read_write priv)) l;
      returns = map_page_new dir vaddr paddr read_write priv w r taken;
      windowed = w';
      same = λ f i differs. mapped_new_same s.frames t dir vaddr pt p read_write priv f i differs;
      post = (
        refl,
        refl,
        dir_e,
        first_entry s.frames t dir vaddr pt p read_write priv r.table_apart,
        lookup_found (mapped_new s.frames t dir vaddr pt (pt / 2 ^ 12) p read_write priv) d vaddr p
            read_write priv (init_entry pt read_write priv) dir_e
            (present-init_entry pt read_write priv) table_e small,
      );
    }
