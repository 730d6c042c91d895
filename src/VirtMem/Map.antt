-- ===== src/VirtMem/Map.antt =====
-- `VirtMem_mapPage`: what a mapping leaves, where the table is there and where it is made.
use fantom_os.Base.{
  ℕ, ◌*◌, ◌/◌, ◌%◌, ◌^◌, ◌<◌, ◌≡◌, ◌≢◌, refl, ◌∙◌, Bool, true, false, ◌&&◌, ◌||◌, some, arith, ◌==◌,
  List,
}
use fantom_os.VirtMem.{init_entry, dir_index, table_index, given, map_page}
use fantom_os.VirtMem.Machine.{Entry, Frames, Vm, put}
use fantom_os.VirtMem.Window.{
  Windowed, shown, with_frames, put_other, put_here, map_to_current-shown, shown-Shows,
  Windowed-put, read-window_page, write-window_page,
}
use fantom_os.VirtMem.Lookup.{lookup, table_of, Reachable, Returned, in_window, put_window}

-- the state after pages were taken
abbrev pub with_supply : Vm → List ℕ → Vm
with_supply s l = record s { supply = l }

pub Windowed-with_supply :
    {s : Vm} {t : ℕ} (l : List ℕ) → Windowed s t → Windowed (with_supply s l) t
Windowed-with_supply l w = record {
  small_pages = w.small_pages;
  self_there = w.self_there;
  self_frame = w.self_frame;
  window_there = w.window_there;
  window_frame = w.window_frame;
  apart = w.apart;
}

-- The mapping's page, with a table there: the frames are those of before, less the page 0 of the
-- window and the address's entry.
abbrev pub mapped : Vm → ℕ → ℕ → ℕ → ℕ → ℕ → ℕ → Frames
mapped s t dir vaddr p read_write priv =
    let x = table_of s.frames (dir / 2 ^ 12) vaddr in
    let one = put s.frames t 0 (init_entry dir 1 0) in
    let two = put one t 0 (init_entry (x * 2 ^ 12) 1 0) in
    put two x (table_index vaddr) (init_entry p read_write priv)

pub map_page_run :
    {s : Vm} {t p : ℕ} {l : List ℕ} (dir vaddr paddr read_write priv : ℕ)
    → Windowed s t
    → Reachable s t dir vaddr
    → given paddr s ≡ some (p, with_supply s l)
    → (s.frames (dir / 2 ^ 12) (dir_index vaddr)).present ≡ true
    → map_page dir vaddr paddr read_write priv s
      ≡ some (p, with_supply (with_frames s (mapped s t dir vaddr p read_write priv)) l)
unfolding map_page
map_page_run {s} {t} {p} {l} dir vaddr paddr read_write priv w r taken there =
    let d = dir / 2 ^ 12 in
    let w' = Windowed-with_supply l w in
    let one = shown (with_supply s l) t dir 0 in
    let sh = shown-Shows dir 0 r.address w' in
    let dir_same =
      put_other s.frames t 0 (init_entry dir 1 0) d (dir_index vaddr)
        (ground (arith, r.dir_apart)) in
    let e = s.frames d (dir_index vaddr) in
    let sh' = shown-Shows (e.page_address * 2 ^ 12) 0 (omega (arith, r.width)) sh.windowed in
    let back : e.page_address * 2 ^ 12 / 2 ^ 12 ≡ e.page_address = omega arith in
    rw
      (
        taken,
        map_to_current-shown dir 0 w',
        read-window_page (dir_index vaddr) (omega arith) sh,
        dir_same,
        there,
        read-window_page (dir_index vaddr) (omega arith) sh,
        dir_same,
        map_to_current-shown (e.page_address * 2 ^ 12) 0 sh.windowed,
        write-window_page (table_index vaddr) (omega arith) sh' (init_entry p read_write priv),
        back,
      )
      refl

-- The table of the address is neither the directory nor the directory in force.
pub record Separate (s : Vm) (dir vaddr : ℕ) : Type 0 where
  pub directory : table_of s.frames (dir / 2 ^ 12) vaddr ≢ dir / 2 ^ 12
  pub in_force : table_of s.frames (dir / 2 ^ 12) vaddr ≢ s.cr3

-- a directory whose entries for an address are known
pub lookup_found :
    (fs : Frames) (d vaddr p read_write priv : ℕ) (e : Entry)
    → fs d (dir_index vaddr) ≡ e
    → e.present ≡ true
    → fs e.page_address (table_index vaddr) ≡ init_entry p read_write priv
    → p < 2 ^ 32
    → lookup fs d vaddr ≡ p / 2 ^ 12 * 2 ^ 12
unfolding init_entry
lookup_found fs d vaddr p read_write priv e dir_e there table_e small =
    let page : p / 2 ^ 12 % 2 ^ 20 ≡ p / 2 ^ 12 = omega arith in
    rw (dir_e, there, table_e, page) refl

-- the entry of a frame at an index
abbrev pub entry_at : ℕ → ℕ → ℕ → ℕ → Bool
entry_at f i g j = (f == g) && (i == j)

-- With the kernel's window set up, a directory at a 32-bit address apart from the window, and in
-- it a table for the address that is apart from it, from the directory in force and from the
-- window's entry, mapping a page of 32 bits returns it, and the directory then leads the address
-- to it. Only the page 0 of the window and the address's entry change.
pub map_page-lookup :
    {s : Vm} {t p : ℕ} {l : List ℕ} (dir vaddr paddr read_write priv : ℕ)
    → Windowed s t
    → Reachable s t dir vaddr
    → Separate s dir vaddr
    → given paddr s ≡ some (p, with_supply s l)
    → p < 2 ^ 32
    → (s.frames (dir / 2 ^ 12) (dir_index vaddr)).present ≡ true
    → Returned s t
        (λ f i.
          in_window t 0 f i
          || entry_at (table_of s.frames (dir / 2 ^ 12) vaddr) (table_index vaddr) f i)
        (λ q s'.
          (q ≡ p) × (s'.supply ≡ l) × (lookup s'.frames (dir / 2 ^ 12) vaddr ≡ p / 2 ^ 12 * 2 ^ 12))
        (map_page dir vaddr paddr read_write priv s)
map_page-lookup {s} {t} {p} {l} dir vaddr paddr read_write priv w r apart taken small there =
    let d = dir / 2 ^ 12 in
    let x = table_of s.frames d vaddr in
    let e = init_entry p read_write priv in
    let one = put s.frames t 0 (init_entry dir 1 0) in
    let two = put one t 0 (init_entry (x * 2 ^ 12) 1 0) in
    let w₁ = Windowed-put t 0 (init_entry dir 1 0) w (ground (arith, w.apart)) in
    let w₂ = Windowed-put t 0 (init_entry (x * 2 ^ 12) 1 0) w₁ (ground (arith, w.apart)) in
    let w₃ = Windowed-put x (table_index vaddr) e w₂ (ground (arith, apart.in_force)) in
    let unchanged = λ (f i : ℕ) (h : in_window t 0 f i ≡ false).
      put_window one t 0 (init_entry (x * 2 ^ 12) 1 0) f i h
      ∙ put_window s.frames t 0 (init_entry dir 1 0) f i h in
    let dir_same : mapped s t dir vaddr p read_write priv d (dir_index vaddr)
        ≡ s.frames d (dir_index vaddr) =
      put_other two x (table_index vaddr) e d (dir_index vaddr) (ground (arith, apart.directory))
      ∙ unchanged d (dir_index vaddr) (ground (arith, r.dir_apart)) in
    record {
      value = p;
      state = with_supply (with_frames s (mapped s t dir vaddr p read_write priv)) l;
      returns = map_page_run dir vaddr paddr read_write priv w r taken there;
      windowed = Windowed-with_supply l w₃;
      same = λ f i differs.
          put_other two x (table_index vaddr) e f i (ground (arith, differs))
          ∙ unchanged f i (ground (arith, differs));
      post = (
        refl,
        refl,
        lookup_found (mapped s t dir vaddr p read_write priv) d vaddr p read_write priv
            (s.frames d (dir_index vaddr)) dir_same there (put_here two x (table_index vaddr) e)
            small,
      );
    }
