-- ===== src/VirtMem/Window.antt =====
-- The window: with small pages, a frame that is mapped into it is read and written through it.
use fantom_os.Base.{
  ℕ, ◌+◌, ◌*◌, ◌/◌, ◌%◌, ◌^◌, ◌<◌, ◌≡◌, ◌≢◌, ◌⊎◌, ◌∙◌, ap, true, false, some, arith,
}
use fantom_os.VirtMem.{init_entry, map_to_current, window_table, temp_vaddr}
use fantom_os.VirtMem.Machine.{Entry, Frames, Vm, resolve, put, read_entry, write_entry}

-- The directory in force shows itself in its last entry, and the table `t` of the window stands at
-- the kernel's base.
pub record Windowed (s : Vm) (t : ℕ) : Type 0 where
  pub small_pages : s.pse_enabled ≡ false
  pub self_there : (s.frames s.cr3 1023).present ≡ true
  pub self_frame : (s.frames s.cr3 1023).page_address ≡ s.cr3
  pub window_there : (s.frames s.cr3 768).present ≡ true
  pub window_frame : (s.frames s.cr3 768).page_address ≡ t
  pub apart : t ≢ s.cr3

-- A page of the window shows a frame.
pub record Shows (s : Vm) (t page f : ℕ) : Type 0 where
  pub windowed : Windowed s t
  pub there : (s.frames t page).present ≡ true
  pub frame : (s.frames t page).page_address ≡ f

-- the state with other frames
abbrev pub with_frames : Vm → Frames → Vm
with_frames s fs = record s { frames = fs }

pub put_other :
    (fs : Frames) (f i : ℕ) (e : Entry) (g j : ℕ) → (f ≢ g) ⊎ (i ≢ j) → put fs f i e g j ≡ fs g j
unfolding put
put_other fs f i e g j o = ground arith

pub put_here : (fs : Frames) (f i : ℕ) (e : Entry) → put fs f i e f i ≡ e
unfolding put
put_here fs f i e = ground arith

-- A write spares the window if it spares the two entries of the directory in force.
pub Windowed-put :
    {s : Vm} {t : ℕ} (f i : ℕ) (e : Entry)
    → Windowed s t
    → (f ≢ s.cr3) ⊎ ((i ≢ 1023) × (i ≢ 768))
    → Windowed (with_frames s (put s.frames f i e)) t
Windowed-put {s} {t} f i e w o =
    let self = put_other s.frames f i e s.cr3 1023 (ground arith) in
    let window = put_other s.frames f i e s.cr3 768 (ground arith) in
    record {
      small_pages = w.small_pages;
      self_there = ap (λ (x : Entry). x.present) self ∙ w.self_there;
      self_frame = ap (λ (x : Entry). x.page_address) self ∙ w.self_frame;
      window_there = ap (λ (x : Entry). x.present) window ∙ w.window_there;
      window_frame = ap (λ (x : Entry). x.page_address) window ∙ w.window_frame;
      apart = w.apart;
    }

pub Shows-put :
    {s : Vm} {t page g : ℕ} (f i : ℕ) (e : Entry)
    → Shows s t page g
    → (f ≢ s.cr3) ⊎ ((i ≢ 1023) × (i ≢ 768))
    → (f ≢ t) ⊎ (i ≢ page)
    → Shows (with_frames s (put s.frames f i e)) t page g
Shows-put {s} {t} {page} f i e sh o away =
    let same = put_other s.frames f i e t page away in
    record {
      windowed = Windowed-put f i e sh.windowed o;
      there = ap (λ (x : Entry). x.present) same ∙ sh.there;
      frame = ap (λ (x : Entry). x.page_address) same ∙ sh.frame;
    }

window_table_lem : (s : Vm) (t : ℕ) → Windowed s t → resolve s window_table ≡ some t
unfolding resolve
window_table_lem s t w =
    rw (w.small_pages, w.self_there, w.self_frame, w.window_there, w.window_frame)

abbrev pub window_page : ℕ → ℕ
window_page page = temp_vaddr + page * 4096

pub resolve-window_page :
    {s : Vm} {t page f : ℕ} → page < 1024 → Shows s t page f → resolve s (window_page page) ≡ some f
unfolding resolve
resolve-window_page {s} {t} {page} h sh =
    let dir : (0xC0000000 + page * 4096) / 2 ^ 22 ≡ 768 = omega arith in
    let table : (0xC0000000 + page * 4096) / 2 ^ 12 % 1024 ≡ page = omega arith in
    rw (
      dir, table, sh.windowed.small_pages, sh.windowed.window_there, sh.windowed.window_frame,
      sh.there, sh.frame,
    )

-- what mapping a frame into the window leaves
abbrev pub shown : Vm → ℕ → ℕ → ℕ → Vm
shown s t paddr page = with_frames s (put s.frames t page (init_entry paddr 1 0))

pub map_to_current-shown :
    {s : Vm} {t : ℕ} (paddr page : ℕ)
    → Windowed s t
    → map_to_current paddr page s ≡ some (window_page page, shown s t paddr page)
unfolding map_to_current write_entry
map_to_current-shown {s} {t} paddr page w = rw (window_table_lem s t w, w.small_pages)

pub shown-Shows :
    {s : Vm} {t : ℕ} (paddr page : ℕ)
    → paddr < 2 ^ 32
    → Windowed s t
    → Shows (shown s t paddr page) t page (paddr / 2 ^ 12)
unfolding init_entry
shown-Shows {s} {t} paddr page h w =
    let here = put_here s.frames t page (init_entry paddr 1 0) in
    record {
      windowed = Windowed-put t page (init_entry paddr 1 0) w (ground (arith, w.apart));
      there = ap (λ (x : Entry). x.present) here;
      frame = ap (λ (x : Entry). x.page_address) here ∙ omega arith;
    }

module _ {s : Vm} {t page f : ℕ} (i : ℕ) (h : page < 1024) (sh : Shows s t page f) where
  pub read-window_page : read_entry (window_page page) i s ≡ some (s.frames f i, s)
  unfolding read_entry
  read-window_page = rw (resolve-window_page h sh)

  pub write-window_page :
      (e : Entry)
      → write_entry (window_page page) i e s ≡ some (tt, with_frames s (put s.frames f i e))
  unfolding write_entry
  write-window_page e = rw (resolve-window_page h sh)
