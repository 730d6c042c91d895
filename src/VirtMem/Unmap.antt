-- ===== src/VirtMem/Unmap.antt =====
-- `VirtMem_unmapPage`: the address leads nowhere, and the page may go back.
use fantom_os.Base.{
  ℕ, ◌*◌, ◌/◌, ◌^◌, ◌≡◌, inl, inr, refl, ◌∙◌, Bool, true, false, ◌||◌, some, arith, if◌then◌else◌,
  Bool-cases, List, ◌∷◌,
}
use fantom_os.VirtMem.{init_entry, dir_index, table_index, unmap_page}
use fantom_os.VirtMem.Machine.{Frames, Vm, put, zeros, give}
use fantom_os.VirtMem.Window.{
  Windowed, Shows, shown, with_frames, put_other, put_here, map_to_current-shown, shown-Shows,
  Windowed-put, read-window_page, write-window_page,
}
use fantom_os.VirtMem.Lookup.{lookup, table_of, Reachable, Returned, in_window, put_window}
use fantom_os.VirtMem.Map.{Separate, entry_at}

-- the state after pages were given back
abbrev pub with_returned : Vm → List ℕ → Vm
with_returned s l = record s { returned = l }

Windowed-with_returned :
    {s : Vm} {t : ℕ} (l : List ℕ) → Windowed s t → Windowed (with_returned s l) t
Windowed-with_returned l w = record {
  small_pages = w.small_pages;
  self_there = w.self_there;
  self_frame = w.self_frame;
  window_there = w.window_there;
  window_frame = w.window_frame;
  apart = w.apart;
}

Shows-with_returned :
    {s : Vm} {t page f : ℕ} (l : List ℕ) → Shows s t page f → Shows (with_returned s l) t page f
Shows-with_returned l sh = record {
  windowed = Windowed-with_returned l sh.windowed;
  there = sh.there;
  frame = sh.frame;
}

-- the pages given back, for the page that the address leads to
abbrev pub freed : Bool → ℕ → List ℕ → List ℕ
freed free_phys page l = if free_phys then page ∷ l else l

module _ {s : Vm} {t : ℕ} (dir vaddr : ℕ) (free_phys : Bool) (w : Windowed s t)
    (r : Reachable s t dir vaddr) where
  -- the frames as the table is shown, and as its entry is cleared
  abbrev table_shown : Frames
  table_shown =
      put (put s.frames t 0 (init_entry dir 1 0)) t 0
        (init_entry (table_of s.frames (dir / 2 ^ 12) vaddr * 2 ^ 12) 1 0)

  abbrev cleared : Frames
  cleared = put table_shown (table_of s.frames (dir / 2 ^ 12) vaddr) (table_index vaddr) zeros

  table_shown_same : (f i : ℕ) → in_window t 0 f i ≡ false → table_shown f i ≡ s.frames f i
  table_shown_same f i h =
      put_window (put s.frames t 0 (init_entry dir 1 0)) t 0
        (init_entry (table_of s.frames (dir / 2 ^ 12) vaddr * 2 ^ 12) 1 0) f i h
      ∙ put_window s.frames t 0 (init_entry dir 1 0) f i h

  unmap_page_run :
      (s.frames (dir / 2 ^ 12) (dir_index vaddr)).present ≡ true
      → (s.frames (table_of s.frames (dir / 2 ^ 12) vaddr) (table_index vaddr)).present ≡ true
      → unmap_page dir vaddr free_phys s
        ≡ some (
          tt,
          with_returned (with_frames s cleared) (
              freed free_phys
                ((s.frames
                    (table_of s.frames (dir / 2 ^ 12) vaddr)
                    (table_index vaddr)).page_address
                  * 2 ^ 12)
                s.returned),
        )
  unfolding unmap_page give
  unmap_page_run there mapped =
      let d = dir / 2 ^ 12 in
      let one = shown s t dir 0 in
      let sh = shown-Shows dir 0 r.address w in
      let dir_same =
        put_other s.frames t 0 (init_entry dir 1 0) d (dir_index vaddr)
          (ground (arith, r.dir_apart)) in
      let x = table_of s.frames d vaddr in
      let sh' = shown-Shows (x * 2 ^ 12) 0 (omega (arith, r.width)) sh.windowed in
      let back : x * 2 ^ 12 / 2 ^ 12 ≡ x = omega arith in
      let same = table_shown_same x (table_index vaddr) (ground (arith, r.table_apart)) in
      let given_back : List ℕ =
        (s.frames x (table_index vaddr)).page_address * 2 ^ 12 ∷ s.returned in
      elim (Bool-cases free_phys) [
        | inl free ↦
            rw
              (
                map_to_current-shown dir 0 w,
                read-window_page (dir_index vaddr) (omega arith) sh,
                dir_same,
                there,
                map_to_current-shown (x * 2 ^ 12) 0 sh.windowed,
                read-window_page (table_index vaddr) (omega arith) sh',
                back,
                same,
                mapped,
                free,
                write-window_page (table_index vaddr) (omega arith)
                    (Shows-with_returned given_back sh') zeros,
                back,
              )
              refl
        | inr keep ↦
            rw
              (
                map_to_current-shown dir 0 w,
                read-window_page (dir_index vaddr) (omega arith) sh,
                dir_same,
                there,
                map_to_current-shown (x * 2 ^ 12) 0 sh.windowed,
                read-window_page (table_index vaddr) (omega arith) sh',
                back,
                same,
                mapped,
                keep,
                write-window_page (table_index vaddr) (omega arith) sh' zeros,
                back,
              )
              refl
      ]

  -- With the kernel's window set up, and a table apart from it and from the directories that
  -- maps an address, unmapping the address returns, leaves it leading nowhere, and gives the
  -- page back just if that is asked. Only the page 0 of the window and the address's entry
  -- change.
  pub unmap_page-lookup :
      Separate s dir vaddr
      → (s.frames (dir / 2 ^ 12) (dir_index vaddr)).present ≡ true
      → (s.frames (table_of s.frames (dir / 2 ^ 12) vaddr) (table_index vaddr)).present ≡ true
      → Returned s t
          (λ f i.
            in_window t 0 f i
            || entry_at (table_of s.frames (dir / 2 ^ 12) vaddr) (table_index vaddr) f i)
          (λ _ s'.
            (lookup s'.frames (dir / 2 ^ 12) vaddr ≡ 0)
            × (s'.returned ≡ freed free_phys (lookup s.frames (dir / 2 ^ 12) vaddr) s.returned))
          (unmap_page dir vaddr free_phys s)
  unmap_page-lookup apart there mapped =
      let d = dir / 2 ^ 12 in
      let x = table_of s.frames d vaddr in
      let page = (s.frames x (table_index vaddr)).page_address * 2 ^ 12 in
      let w₁ = Windowed-put t 0 (init_entry dir 1 0) w (ground (arith, w.apart)) in
      let w₂ = Windowed-put t 0 (init_entry (x * 2 ^ 12) 1 0) w₁ (ground (arith, w.apart)) in
      let w₃ = Windowed-put x (table_index vaddr) zeros w₂ (inl apart.in_force) in
      let dir_same : cleared d (dir_index vaddr) ≡ s.frames d (dir_index vaddr) =
        put_other table_shown x (table_index vaddr) zeros d (dir_index vaddr) (inl apart.directory)
        ∙ table_shown_same d (dir_index vaddr) (ground (arith, r.dir_apart)) in
      let gone = put_here table_shown x (table_index vaddr) zeros in
      record {
        value = tt;
        state = with_returned (with_frames s cleared) (freed free_phys page s.returned);
        returns = unmap_page_run there mapped;
        windowed = Windowed-with_returned (freed free_phys page s.returned) w₃;
        same = λ f i differs.
            put_other table_shown x (table_index vaddr) zeros f i (ground (arith, differs))
            ∙ table_shown_same f i (ground (arith, differs));
        post = (rw (dir_same, there, gone) refl, rw (there, mapped) refl);
      }
