-- ===== src/VirtMem/Lookup.antt =====
-- What an address stands for in a directory, and that the kernel's lookup finds it.
use fantom_os.Base.{
  ℕ, ◌*◌, ◌/◌, ◌^◌, ◌<◌, ◌≡◌, ◌≢◌, ◌⊎◌, inl, inr, refl, ◌∙◌, ap, Bool, false, ◌&&◌, some, Option,
  arith, ◌==◌, if◌then◌else◌, Bool-cases,
}
use fantom_os.VirtMem.{init_entry, dir_index, table_index, virt2phys}
use fantom_os.VirtMem.Machine.{Entry, Frames, Vm, put}
use fantom_os.VirtMem.Window.{
  Windowed, shown, put_other, map_to_current-shown, shown-Shows, read-window_page,
}

-- the physical page of an address in the directory at a frame, 0 if there is none
abbrev pub lookup : Frames → ℕ → ℕ → ℕ
lookup fs d vaddr =
    let e = fs d (dir_index vaddr) in
    let t = fs e.page_address (table_index vaddr) in
    if e.present then (if t.present then t.page_address * 2 ^ 12 else 0) else 0

-- the frame of the table that a directory has for an address
abbrev pub table_of : Frames → ℕ → ℕ → ℕ
table_of fs d vaddr = (fs d (dir_index vaddr)).page_address

-- An operation that returned: its value, and frames that differ at most where a set of entries says.
pub record Returned {A : Type 0} (s : Vm) (t : ℕ) (changes : ℕ → ℕ → Bool) (P : A → Vm → Type 0)
    (r : Option (A × Vm)) : Type 0 where
  pub value : A
  pub state : Vm
  pub returns : r ≡ some (value, state)
  pub windowed : Windowed state t
  pub same : (f i : ℕ) → changes f i ≡ false → state.frames f i ≡ s.frames f i
  pub post : P value state

-- the entry of the window's table for one of its pages
abbrev pub in_window : ℕ → ℕ → ℕ → ℕ → Bool
in_window t page f i = (t == f) && (page == i)

-- The frames of the directory and of its table are apart from the page 0 of the window.
pub record Reachable (s : Vm) (t dir vaddr : ℕ) : Type 0 where
  pub address : dir < 2 ^ 32
  pub dir_apart : dir / 2 ^ 12 ≢ t
  pub width : table_of s.frames (dir / 2 ^ 12) vaddr < 2 ^ 20
  pub table_apart : (table_of s.frames (dir / 2 ^ 12) vaddr ≢ t) ⊎ (table_index vaddr ≢ 0)

-- a page of the window that is mapped leaves the other entries
pub put_window :
    (fs : Frames) (t page : ℕ) (e : Entry) (f i : ℕ)
    → in_window t page f i ≡ false
    → put fs t page e f i ≡ fs f i
unfolding put
put_window fs t page e f i differs = ground (arith, differs)

-- With the kernel's window set up, the directory at a 32-bit address, and it and the table apart
-- from the window's entry, the lookup of an address returns the page to which the directory
-- leads it, 0 without a table or without a page, and changes no entry but the page 0 of the
-- window.
pub virt2phys-lookup :
    {s : Vm} {t : ℕ} (dir vaddr : ℕ)
    → Windowed s t
    → Reachable s t dir vaddr
    → Returned s t
        (in_window t 0)
        (λ p _. p ≡ lookup s.frames (dir / 2 ^ 12) vaddr)
        (virt2phys dir vaddr s)
unfolding virt2phys
virt2phys-lookup {s} {t} dir vaddr w r =
    let d = dir / 2 ^ 12 in
    let one = shown s t dir 0 in
    let sh = shown-Shows dir 0 r.address w in
    let dir_same =
      put_other s.frames t 0 (init_entry dir 1 0) d (dir_index vaddr)
        (ground (arith, r.dir_apart)) in
    let e = s.frames d (dir_index vaddr) in
    elim (Bool-cases e.present) [
      | inl there ↦
          let two = shown one t (e.page_address * 2 ^ 12) 0 in
          let sh' = shown-Shows (e.page_address * 2 ^ 12) 0 (omega (arith, r.width)) sh.windowed in
          let back : e.page_address * 2 ^ 12 / 2 ^ 12 ≡ e.page_address = omega arith in
          let entry_same : two.frames (e.page_address * 2 ^ 12 / 2 ^ 12) (table_index vaddr)
              ≡ s.frames e.page_address (table_index vaddr) =
            ap (λ (f : ℕ). two.frames f (table_index vaddr)) back
            ∙ put_other one.frames t 0 (init_entry (e.page_address * 2 ^ 12) 1 0) e.page_address
                (table_index vaddr) (ground (arith, r.table_apart))
            ∙ put_other s.frames t 0 (init_entry dir 1 0) e.page_address (table_index vaddr)
                (ground (arith, r.table_apart)) in
          record {
            value =
                if (s.frames e.page_address (table_index vaddr)).present
                then (s.frames e.page_address (table_index vaddr)).page_address * 2 ^ 12
                else 0;
            state = two;
            returns =
                rw
                  (
                    map_to_current-shown dir 0 w,
                    read-window_page (dir_index vaddr) (omega arith) sh,
                    dir_same,
                    there,
                    map_to_current-shown (e.page_address * 2 ^ 12) 0 sh.windowed,
                    read-window_page (table_index vaddr) (omega arith) sh',
                    entry_same,
                  )
                  refl;
            windowed = sh'.windowed;
            same = λ f i differs.
                put_window one.frames t 0 (init_entry (e.page_address * 2 ^ 12) 1 0) f i differs
                ∙ put_window s.frames t 0 (init_entry dir 1 0) f i differs;
            post = rw there;
          }
      | inr missing ↦ record {
        value = 0;
        state = one;
        returns = rw (
          map_to_current-shown dir 0 w,
          read-window_page (dir_index vaddr) (omega arith) sh,
          dir_same,
          missing,
        );
        windowed = sh.windowed;
        same = λ f i differs. put_window s.frames t 0 (init_entry dir 1 0) f i differs;
        post = rw missing;
      }
    ]
