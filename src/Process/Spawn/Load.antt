-- ===== src/Process/Spawn/Load.antt =====
-- Loading the program's file: `load_code` once the directory has a table for the code.
use fantom_os.Base.{
  ℕ, suc, ◌+◌, ◌*◌, ◌/◌, ◌^◌, ◌≤◌, ◌<◌, ◌≡◌, ◌≢◌, inl, refl, ◌∙◌, ap, sym, true, false, Option,
  some, arith, ◌==◌, List, [], ◌∷◌, ◌++◌, append_assoc, append-nil, length, if◌then◌else◌, u32,
}
use fantom_os.VirtMem.{init_entry, map_page, map_to_current, dir_index, table_index}
use fantom_os.VirtMem.Machine.{Entry, Frames, Vm, put, take, resolve}
use fantom_os.VirtMem.Window.{
  Windowed, shown, with_frames, map_to_current-shown, shown-Shows, Windowed-put,
  resolve-window_page, window_page,
}
use fantom_os.VirtMem.Lookup.{table_of, Reachable}
use fantom_os.VirtMem.Map.{with_supply, Windowed-with_supply, mapped, map_page_run}
use fantom_os.Vfs.{Node}
use fantom_os.Process.Spawn.{System, Write, file_part, load_code, vfs_read}

-- The directory at the address `dir` has a table at the frame `c` for the code.
pub record HasCode (s : Vm) (t dir c : ℕ) : Type 0 where
  pub windowed : Windowed s t
  pub address : dir < 2 ^ 32
  pub there : (s.frames (dir / 2 ^ 12) 64).present ≡ true
  pub table : (s.frames (dir / 2 ^ 12) 64).page_address ≡ c
  pub width : c < 2 ^ 20
  pub dir_apart : dir / 2 ^ 12 ≢ t
  pub not_window : c ≢ t
  pub not_dir : c ≢ dir / 2 ^ 12
  pub not_in_force : c ≢ s.cr3

-- the reads of the pages from the `i`th on
abbrev pub parts : Node → ℕ → List ℕ → List Write
parts file i [] = []
parts file i (p ∷ ps) = file_part (p / 2 ^ 12) 0 file 4096 (i * 4096) ∷ parts file (i + 1) ps

-- the table's entries from the `i`th on
abbrev pub Entries : Frames → ℕ → ℕ → List ℕ → Type 0
Entries fs c i [] = Unit {0}
Entries fs c i (p ∷ ps) = (fs c i ≡ init_entry p 1 1) × Entries fs c (i + 1) ps

-- `PhysMem_allocate` returns page addresses that are not NULL.
abbrev pub AllPages : List ℕ → Type 0
AllPages [] = Unit {0}
AllPages (p ∷ ps) = (0 < p) × (p < 2 ^ 32) × AllPages ps

pub record Loaded (s s' : Vm) (t dir c i : ℕ) (ps l : List ℕ) : Type 0 where
  pub code : HasCode s' t dir c
  pub in_force : s'.cr3 ≡ s.cr3
  pub supply : s'.supply ≡ l
  pub entries : Entries s'.frames c i ps
  pub below : (j : ℕ) → j < i → s'.frames c j ≡ s.frames c j
  pub dir_same : (j : ℕ) → s'.frames (dir / 2 ^ 12) j ≡ s.frames (dir / 2 ^ 12) j
  pub other : (f j : ℕ) → f ≢ t → f ≢ c → s'.frames f j ≡ s.frames f j

abbrev pub code_page : ℕ → ℕ
code_page i = 0x10000000 + i * 4096

module _ (s : Vm) (t dir c i p : ℕ) (l : List ℕ) (h : HasCode s t dir c) (fits : i < 1024)
    (pos : 0 < p) (small : p < 2 ^ 32) where
  abbrev one : Vm
  one = with_frames s (mapped s t dir (code_page i) p 1 1)

  -- the page read, in the window
  abbrev two : Vm
  two = shown (with_supply one l) t p 8

  code_index : dir_index (code_page i) ≡ 64
  code_index = omega arith

  code_table : table_index (code_page i) ≡ i
  code_table = omega arith

  code_at : table_of s.frames (dir / 2 ^ 12) (code_page i) ≡ c
  code_at = ap (λ (j : ℕ). (s.frames (dir / 2 ^ 12) j).page_address) code_index ∙ h.table

  two_dir : (j : ℕ) → two.frames (dir / 2 ^ 12) j ≡ s.frames (dir / 2 ^ 12) j
  unfolding put
  two_dir j = ground (arith, h.dir_apart, h.not_dir, code_at)

  two_table : (j : ℕ) → two.frames c j ≡ (if i == j then init_entry p 1 1 else s.frames c j)
  unfolding put
  two_table j = ground (arith, h.not_window, code_at, code_table)

  two_other : (f j : ℕ) → f ≢ t → f ≢ c → two.frames f j ≡ s.frames f j
  unfolding put
  two_other f j a b = ground (arith, code_at)

  map_run : map_page dir (code_page i) p 1 1 (with_supply s l) ≡ some (p, with_supply one l)
  map_run =
      let r : Reachable (with_supply s l) t dir (code_page i) = record {
        address = h.address;
        dir_apart = h.dir_apart;
        width = rw code_at h.width;
        table_apart = inl (rw code_at h.not_window);
      } in
      let some_page : (p == 0) ≡ false = ground arith in
      map_page_run {s = with_supply s l} {t = t} {p = p} {l = l} dir (code_page i) p 1 1
        (Windowed-with_supply l h.windowed) r (rw some_page refl) (rw code_index h.there)

  one-Windowed : Windowed (with_supply one l) t
  one-Windowed =
      let w₁ = Windowed-put t 0 (init_entry dir 1 0) h.windowed (inl h.windowed.apart) in
      let x = table_of s.frames (dir / 2 ^ 12) (code_page i) in
      let w₂ = Windowed-put t 0 (init_entry (x * 2 ^ 12) 1 0) w₁ (inl h.windowed.apart) in
      let out : x ≢ s.cr3 = rw code_at h.not_in_force in
      Windowed-with_supply l
        (Windowed-put x (table_index (code_page i)) (init_entry p 1 1) w₂ (inl out))

  show_run : map_to_current p 8 (with_supply one l) ≡ some (window_page 8, two)
  show_run = map_to_current-shown p 8 one-Windowed

  two_at : resolve two (window_page 8) ≡ some (p / 2 ^ 12)
  two_at = resolve-window_page (omega arith) (shown-Shows p 8 small one-Windowed)

  two-HasCode : HasCode two t dir c
  two-HasCode = record {
    windowed = (shown-Shows p 8 small one-Windowed).windowed;
    address = h.address;
    there = ap (λ (e : Entry). e.present) (two_dir 64) ∙ h.there;
    table = ap (λ (e : Entry). e.page_address) (two_dir 64) ∙ h.table;
    width = h.width;
    dir_apart = h.dir_apart;
    not_window = h.not_window;
    not_dir = h.not_dir;
    not_in_force = h.not_in_force;
  }

-- one page of the loop, on the whole state
load_step :
    (y : System) (t dir c i p n : ℕ) (l : List ℕ) (file : Node) (r : Option (Unit {0} × System))
    (h : HasCode y.vm t dir c) (fits : i < 1024) (pos : 0 < p) (small : p < 2 ^ 32)
    → y.vm.supply ≡ p ∷ l
    → load_code n (i + 1) file dir (record y {
      vm = two y.vm t dir c i p l h fits pos small;
      writes = y.writes ++ file_part (p / 2 ^ 12) 0 file 4096 (i * 4096) ∷ [];
    })
      ≡ r
    → load_code (suc n) i file dir y ≡ r
unfolding load_code take vfs_read
load_step y t dir c i p n l file r h fits pos small supply rest =
    let address : u32 (0x10000000 + i * 4096) ≡ code_page i = omega arith in
    rw
      (
        supply,
        address,
        map_run y.vm t dir c i p l h fits pos small,
        show_run y.vm t dir c i p l h fits pos small,
        two_at y.vm t dir c i p l h fits pos small,
      )
      rest

module _ (s s' : Vm) (t dir c i p : ℕ) (ps l : List ℕ) (h : HasCode s t dir c) (fits : i < 1024)
    (pos : 0 < p) (small : p < 2 ^ 32)
    (g : Loaded (two s t dir c i p (ps ++ l) h fits pos small) s' t dir c (i + 1) ps l) where
  one_part_more : Loaded s s' t dir c i (p ∷ ps) l
  one_part_more =
      let table = two_table s t dir c i p (ps ++ l) h fits pos small in
      let same : (i == i) ≡ true = ground arith in
      record {
        code = g.code;
        in_force = g.in_force;
        supply = g.supply;
        entries = (g.below i (omega arith) ∙ table i ∙ rw same refl, g.entries);
        below = λ j lt.
            let other : (i == j) ≡ false = ground arith in
            g.below j (omega arith) ∙ table j ∙ rw other refl;
        dir_same = λ j. g.dir_same j ∙ two_dir s t dir c i p (ps ++ l) h fits pos small j;
        other =
            λ f k a b. g.other f k a b ∙ two_other s t dir c i p (ps ++ l) h fits pos small f k a b;
      }

-- T
pub load_code-Loaded :
    (y : System) (t dir c i : ℕ) (ps l : List ℕ) (file : Node)
    → HasCode y.vm t dir c
    → i + length ps ≤ 1024
    → AllPages ps
    → y.vm.supply ≡ ps ++ l
    → (s' : Vm) × (load_code (length ps) i file dir y
        ≡ some (tt, record y { vm = s'; writes = y.writes ++ parts file i ps }))
      × Loaded y.vm s' t dir c i ps l
unfolding load_code
load_code-Loaded y t dir c i [] l file h fits pages supply = (
  y.vm,
  ap (λ (ws : List Write). some (tt, record y { writes = ws })) (sym (append-nil y.writes)),
  record {
    code = h;
    in_force = refl;
    supply = supply;
    entries = tt;
    below = λ j lt. refl;
    dir_same = λ j. refl;
    other = λ f j a b. refl;
  },
)
load_code-Loaded y t dir c i (p ∷ ps) l file h fits pages supply =
    let lt : i < 1024 = omega arith in
    let next = two y.vm t dir c i p (ps ++ l) h lt pages.0 pages.1 in
    let w = file_part (p / 2 ^ 12) 0 file 4096 (i * 4096) in
    let y' : System = record y { vm = next; writes = y.writes ++ w ∷ [] } in
    let rest =
      load_code-Loaded y' t dir c (i + 1) ps l file
        (two-HasCode y.vm t dir c i p (ps ++ l) h lt pages.0 pages.1) (omega arith) pages.2 refl in
    let joined = append_assoc y.writes (w ∷ []) (parts file (i + 1) ps) in
    (
      rest.0,
      load_step y t dir c i p (length ps) (ps ++ l) file _ h lt pages.0 pages.1 supply (
          rest.1
          ∙ ap (λ (ws : List Write). some (tt, record y { vm = rest.0; writes = ws })) joined),
      one_part_more y.vm (rest.0) t dir c i p ps l h lt pages.0 pages.1 (rest.2),
    )
