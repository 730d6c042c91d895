-- ===== src/HeapMem/Page.antt =====
-- One page that a heap grows by, in a directory whose table for the heap is there.
use fantom_os.Base.{
  ℕ, ◌+◌, ◌/◌, ◌%◌, ◌^◌, ◌≤◌, ◌<◌, ◌≡◌, ◌≢◌, inl, refl, ◌∙◌, ap, true, false, some, arith, ◌==◌,
  List, ◌∷◌, if◌then◌else◌,
}
use fantom_os.VirtMem.{init_entry, dir_index, table_index, map_page}
use fantom_os.VirtMem.Machine.{Entry, zeros, Frames, Vm, put, take, resolve, clear_frame}
use fantom_os.VirtMem.Window.{Windowed, with_frames}
use fantom_os.VirtMem.Lookup.{Reachable}
use fantom_os.VirtMem.Map.{with_supply, mapped, map_page_run}
use fantom_os.VirtMem.Large.{cleared}

-- The heap's directory is in force, and has a table at the frame `x` for the heap, apart from the
-- window's table at the frame `t`.
pub record HasHeap (s : Vm) (t x dir di : ℕ) : Type 0 where
  pub windowed : Windowed s t
  pub address : dir < 2 ^ 32
  pub in_force : s.cr3 ≡ dir / 2 ^ 12
  pub there : (s.frames (dir / 2 ^ 12) di).present ≡ true
  pub table : (s.frames (dir / 2 ^ 12) di).page_address ≡ x
  pub width : x < 2 ^ 20
  pub not_window : x ≢ t
  pub not_dir : x ≢ dir / 2 ^ 12

-- A new page is none of the directory and the two tables.
pub record IsNew (s : Vm) (t x p : ℕ) : Type 0 where
  pub small : p < 2 ^ 32
  pub not_dir : p / 2 ^ 12 ≢ s.cr3
  pub not_window : p / 2 ^ 12 ≢ t
  pub not_table : p / 2 ^ 12 ≢ x

-- the frames once a page is mapped and cleared
abbrev pub grown : Vm → ℕ → ℕ → ℕ → ℕ → ℕ → Frames
grown s t dir top p mode = cleared (mapped s t dir top p 1 mode) (p / 2 ^ 12)

-- the walk of the processor through a table
pub resolve-small :
    (s : Vm) (d vaddr x p mode : ℕ)
    → p < 2 ^ 32
    → s.cr3 ≡ d
    → s.pse_enabled ≡ false
    → (s.frames d (dir_index vaddr)).present ≡ true
    → (s.frames d (dir_index vaddr)).page_address ≡ x
    → s.frames x (table_index vaddr) ≡ init_entry p 1 mode
    → resolve s vaddr ≡ some (p / 2 ^ 12)
unfolding resolve init_entry
resolve-small s d vaddr x p mode small force large there table e =
    let page : p / 2 ^ 12 % 2 ^ 20 ≡ p / 2 ^ 12 = omega arith in
    rw (large, force, there, table, e, page) refl

module _ (s : Vm) (t x dir top p mode : ℕ) (l : List ℕ) (h : HasHeap s t x dir (dir_index top))
    (new : IsNew s t x p) (supply : s.supply ≡ p ∷ l) where
  pub grown_dir : (j : ℕ) → grown s t dir top p mode (dir / 2 ^ 12) j ≡ s.frames (dir / 2 ^ 12) j
  unfolding put
  grown_dir j = ground (arith, h.in_force, h.table, h.not_dir, h.windowed.apart, new.not_dir)

  pub grown_table :
      (j : ℕ)
      → grown s t dir top p mode x j
        ≡ (if table_index top == j then init_entry p 1 mode else s.frames x j)
  unfolding put
  grown_table j = ground (arith, h.table, h.not_window, new.not_table)

  pub grown_page : (j : ℕ) → grown s t dir top p mode (p / 2 ^ 12) j ≡ zeros
  grown_page j = ground arith

  -- A frame of zeros stays one.
  pub zeros_stay :
      (f j : ℕ) → f ≢ x → f ≢ t → s.frames f j ≡ zeros → grown s t dir top p mode f j ≡ zeros
  unfolding put
  zeros_stay f j a b e = ground (arith, h.table)

  -- what one page of the loop leaves
  abbrev pub after : Vm
  after = with_supply (with_frames s (grown s t dir top p mode)) l

  pub page_run :
      table_index top + 1 ≤ 1024
      → map_page dir top 0 1 mode s
        ≡ some (p, with_supply (with_frames s (mapped s t dir top p 1 mode)) l)
  unfolding take
  page_run fits =
      let r : Reachable s t dir top = record {
        address = h.address;
        dir_apart = ground (arith, h.windowed.apart, h.in_force);
        width = ground (arith, h.table, h.width);
        table_apart = inl (ground (arith, h.table, h.not_window));
      } in
      map_page_run dir top 0 1 mode h.windowed r (rw supply refl) h.there

  mapped_dir : (j : ℕ) → mapped s t dir top p 1 mode (dir / 2 ^ 12) j ≡ s.frames (dir / 2 ^ 12) j
  unfolding put
  mapped_dir j = ground (arith, h.in_force, h.table, h.not_dir, h.windowed.apart)

  mapped_table : mapped s t dir top p 1 mode x (table_index top) ≡ init_entry p 1 mode
  unfolding put
  mapped_table = ground (arith, h.table, h.not_window)

  pub clear_run :
      clear_frame top (with_supply (with_frames s (mapped s t dir top p 1 mode)) l)
      ≡ some (tt, after)
  unfolding clear_frame
  clear_run =
      let entry = mapped_dir (dir_index top) in
      let found =
        resolve-small (with_supply (with_frames s (mapped s t dir top p 1 mode)) l) (dir / 2 ^ 12)
          top x p mode new.small h.in_force h.windowed.small_pages
          (ap (λ (e : Entry). e.present) entry ∙ h.there)
          (ap (λ (e : Entry). e.page_address) entry ∙ h.table) mapped_table in
      rw found refl

  pub after-HasHeap : HasHeap after t x dir (dir_index top)
  after-HasHeap =
      let entry = grown_dir (dir_index top) in
      let self = grown_dir 1023 in
      let window = grown_dir 768 in
      let w = h.windowed in
      record {
        windowed = record {
          small_pages = w.small_pages;
          self_there = rw (h.in_force, self) (rw h.in_force at w.self_there);
          self_frame = rw (h.in_force, self) (rw h.in_force at w.self_frame);
          window_there = rw (h.in_force, window) (rw h.in_force at w.window_there);
          window_frame = rw (h.in_force, window) (rw h.in_force at w.window_frame);
          apart = w.apart;
        };
        address = h.address;
        in_force = h.in_force;
        there = ap (λ (e : Entry). e.present) entry ∙ h.there;
        table = ap (λ (e : Entry). e.page_address) entry ∙ h.table;
        width = h.width;
        not_window = h.not_window;
        not_dir = h.not_dir;
      }
