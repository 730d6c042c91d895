-- ===== src/HeapMem/Grow.antt =====
-- What a heap's growth leaves, in a directory whose table for the heap is there.
use fantom_os.Base.{
  ℕ, suc, ◌+◌, ◌*◌, ◌/◌, ◌^◌, ◌≤◌, ◌<◌, ◌≡◌, ◌≢◌, ◌⊎◌, inl, refl, ◌∙◌, ap, sym, subst, true, false,
  Option, some, arith, ltb, ◌==◌, List, [], ◌∷◌, ◌++◌, length, u32,
}
use fantom_os.HeapMem.{grow, pages_of, give, sbrk, user_mode}
use fantom_os.VirtMem.{dir_index, table_index, map_page}
use fantom_os.VirtMem.Machine.{zeros, Frames, Vm, clear_frame}
use fantom_os.VirtMem.Window.{Windowed}
use fantom_os.VirtMem.Lookup.{lookup}
use fantom_os.VirtMem.Map.{lookup_found}
use fantom_os.HeapMem.Page.{
  HasHeap, IsNew, grown_dir, grown_table, grown_page, zeros_stay, after, page_run, clear_run,
  after-HasHeap,
}

-- The heap from `top` on: each page is the next one of the supply, and holds zeros.
abbrev pub Fresh : Frames → ℕ → ℕ → List ℕ → Type 0
Fresh fs d top [] = Unit {0}
Fresh fs d top (p ∷ ps) =
    (lookup fs d top ≡ p / 2 ^ 12 * 2 ^ 12)
    × ((j : ℕ) → fs (p / 2 ^ 12) j ≡ zeros)
    × Fresh fs d (top + 4096) ps

abbrev pub AllNew : Vm → ℕ → ℕ → List ℕ → Type 0
AllNew s t x [] = Unit {0}
AllNew s t x (p ∷ ps) = IsNew s t x p × AllNew s t x ps

pub record Grown (s s' : Vm) (t x dir top i : ℕ) (ps l : List ℕ) : Type 0 where
  pub windowed : Windowed s' t
  pub in_force : s'.cr3 ≡ s.cr3
  pub supply : s'.supply ≡ l
  pub pages : Fresh s'.frames (dir / 2 ^ 12) top ps
  pub dir_same : (j : ℕ) → s'.frames (dir / 2 ^ 12) j ≡ s.frames (dir / 2 ^ 12) j
  pub table_same : (j : ℕ) → (j < i) ⊎ (i + length ps ≤ j) → s'.frames x j ≡ s.frames x j
  pub zeros_kept : (f j : ℕ) → f ≢ x → f ≢ t → s.frames f j ≡ zeros → s'.frames f j ≡ zeros

AllNew-after :
    (s s' : Vm) (t x : ℕ) (ps : List ℕ) → s'.cr3 ≡ s.cr3 → AllNew s t x ps → AllNew s' t x ps
AllNew-after s s' t x [] e a = tt
AllNew-after s s' t x (p ∷ ps) e a = (
  record {
    small = a.0.small;
    not_dir = rw e a.0.not_dir;
    not_window = a.0.not_window;
    not_table = a.0.not_table;
  },
  AllNew-after s s' t x ps e a.1,
)

-- the first page, and the rest behind it
module _ (mode : ℕ) (s s' : Vm) (t x dir top p i : ℕ) (ps l : List ℕ)
    (h : HasHeap s t x dir (dir_index top)) (new : IsNew s t x p)
    (supply : s.supply ≡ p ∷ (ps ++ l)) (index : table_index top ≡ i)
    (g : Grown
      (after s t x dir top p mode (ps ++ l) h new supply)
      s'
      t
      x
      dir
      (top + 4096)
      (i + 1)
      ps
      l) where
  one_page_more : Grown s s' t x dir top i (p ∷ ps) l
  one_page_more =
      let same : (table_index top == table_index top) ≡ true = ground arith in
      let dir_same =
        λ (j : ℕ). g.dir_same j ∙ grown_dir s t x dir top p mode (ps ++ l) h new supply j in
      let table = grown_table s t x dir top p mode (ps ++ l) h new supply in
      record {
        windowed = g.windowed;
        in_force = g.in_force;
        supply = g.supply;
        pages = (
          lookup_found s'.frames (dir / 2 ^ 12) top p 1 mode
              (s.frames (dir / 2 ^ 12) (dir_index top)) (dir_same (dir_index top)) h.there
              (rw h.table (
                g.table_same (table_index top) (inl (omega arith))
                ∙ table (table_index top)
                ∙ rw same refl))
              new.small,
          λ j.
              g.zeros_kept (p / 2 ^ 12) j new.not_table new.not_window
                (grown_page s t x dir top p mode (ps ++ l) h new supply j),
          g.pages,
        );
        dir_same = dir_same;
        table_same = λ j o.
            let other : (table_index top == j) ≡ false = ground (arith, index) in
            g.table_same j (omega arith) ∙ table j ∙ rw other refl;
        zeros_kept = λ f j a b e.
            g.zeros_kept f j a b (zeros_stay s t x dir top p mode (ps ++ l) h new supply f j a b e);
      }

grow_step :
    (mode n dir top top' p : ℕ) (s mid one : Vm) (r : Option (ℕ × Vm))
    → map_page dir top 0 1 mode s ≡ some (p, mid)
    → clear_frame top mid ≡ some (tt, one)
    → u32 (top + 4096) ≡ top'
    → grow mode n dir top' one ≡ r
    → grow mode (suc n) dir top s ≡ r
unfolding grow
grow_step mode n dir top top' p s mid one r page clear next rest = rw (page, clear, next) rest

-- T
pub grow-Grown :
    (mode : ℕ) (s : Vm) (t x dir di top i : ℕ) (ps l : List ℕ)
    → HasHeap s t x dir di
    → di < 1023
    → top ≡ di * 2 ^ 22 + i * 4096
    → i + length ps ≤ 1024
    → AllNew s t x ps
    → s.supply ≡ ps ++ l
    → (s' : Vm) × (grow mode (length ps) dir top s ≡ some (top + length ps * 4096, s'))
      × Grown s s' t x dir top i ps l
unfolding grow
grow-Grown mode s t x dir di top i [] l h low at_page fits new supply = (
  s,
  ap (λ (k : ℕ). some (k, s)) (omega arith),
  record {
    windowed = h.windowed;
    in_force = refl;
    supply = supply;
    pages = tt;
    dir_same = λ j. refl;
    table_same = λ j o. refl;
    zeros_kept = λ f j a b e. e;
  },
)
grow-Grown mode s t x dir di top i (p ∷ ps) l h low at_page fits new supply =
    let d : di ≡ dir_index top = omega arith in
    let index : table_index top ≡ i = omega arith in
    let next : u32 (top + 4096) ≡ top + 4096 = omega arith in
    let sum : top + 4096 + length ps * 4096 ≡ top + suc (length ps) * 4096 = omega arith in
    let h' : HasHeap s t x dir (dir_index top) = subst (HasHeap s t x dir) d h in
    let one = after s t x dir top p mode (ps ++ l) h' new.0 supply in
    let kept : HasHeap one t x dir di =
      subst (HasHeap one t x dir) (sym d)
        (after-HasHeap s t x dir top p mode (ps ++ l) h' new.0 supply) in
    let rest =
      grow-Grown mode one t x dir di (top + 4096) (i + 1) ps l kept low (omega arith) (omega arith)
        (AllNew-after s one t x ps refl new.1) refl in
    let page = page_run s t x dir top p mode (ps ++ l) h' new.0 supply (omega arith) in
    let clear = clear_run s t x dir top p mode (ps ++ l) h' new.0 supply in
    (
      rest.0,
      grow_step mode (length ps) dir top (top + 4096) p s _ one _ page clear next
          (rest.1 ∙ ap (λ (k : ℕ). some (k, rest.0)) sum),
      one_page_more mode s (rest.0) t x dir top p i ps l h' new.0 supply index (rest.2),
    )

-- `HeapMem_SBRK` of a whole number of pages below 2 GB.
pages_of-give : (n : ℕ) → n * 4096 < 2 ^ 31 → pages_of (n * 4096) ≡ give n
unfolding pages_of
pages_of-give n small =
    let test : ltb (n * 4096) (2 ^ 31) ≡ true = ground arith in
    let pages : n * 4096 / 4096 ≡ n = omega arith in rw (test, pages) refl

-- With the directory in force at hand, in it a table for the heap apart from it and from the
-- window's table, and pages to come apart from all of them, growing a process's heap by whole
-- pages within one table returns the old top and moves the top on by the pages: each new address
-- leads to the next page to come, which holds zeros, the pages left are the others, the
-- directory's entries stay, and so do the table's other entries.
pub sbrk-Grown :
    (s : Vm) (t x dir di top i : ℕ) (ps l : List ℕ)
    → HasHeap s t x dir di
    → di < 1023
    → top ≡ di * 2 ^ 22 + i * 4096
    → i + length ps ≤ 1024
    → AllNew s t x ps
    → s.supply ≡ ps ++ l
    → (s' : Vm) × (sbrk (length ps * 4096) dir top s ≡ some ((top, top + length ps * 4096), s'))
      × Grown s s' t x dir top i ps l
unfolding sbrk
sbrk-Grown s t x dir di top i ps l h low at_page fits new supply =
    let g = grow-Grown user_mode s t x dir di top i ps l h low at_page fits new supply in
    (g.0, rw (pages_of-give (length ps) (omega arith), sbrk, g.1) refl, g.2)
