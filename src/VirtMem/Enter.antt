-- ===== src/VirtMem/Enter.antt =====
-- A table that is entered into a directory, as the window shows it.
use fantom_os.Base.{ℕ, ◌/◌, ◌^◌, ◌<◌, ◌≡◌, ◌≢◌, ◌⊎◌, inl, refl, ◌∙◌, true, some, arith, List, ◌∷◌}
use fantom_os.VirtMem.{init_entry, add_table}
use fantom_os.VirtMem.Machine.{Entry, Frames, Vm, put, zeros, take}
use fantom_os.VirtMem.Window.{
  Shows, with_frames, put_other, put_here, map_to_current-shown, shown-Shows, Shows-put,
  write-window_page, window_page,
}
use fantom_os.VirtMem.Map.{with_supply, Windowed-with_supply}

-- the frames as a table is entered, in frames that show the directory `d`
abbrev pub entered : Frames → ℕ → ℕ → ℕ → ℕ → Entry → Frames
entered fs t d index pt e =
    put (put (put fs d index e) t 4 (init_entry pt 1 0)) (pt / 2 ^ 12) 0 zeros

pub add_table_Shows :
    {s : Vm} {t d : ℕ} (index pt : ℕ) (e : Entry)
    → Shows s t 0 d
    → d ≢ t
    → (d ≢ s.cr3) ⊎ ((index ≢ 1023) × (index ≢ 768))
    → pt / 2 ^ 12 ≢ t
    → pt / 2 ^ 12 ≢ s.cr3
    → Shows (with_frames s (entered s.frames t d index pt e)) t 0 d
add_table_Shows {s} {t} {d} index pt e sh dir_apart dir_entry table_apart in_force =
    let one = Shows-put d index e sh dir_entry (inl dir_apart) in
    let two =
      Shows-put t 4 (init_entry pt 1 0) one (ground (arith, sh.windowed.apart)) (ground arith) in
    Shows-put (pt / 2 ^ 12) 0 zeros two (ground (arith, in_force)) (ground (arith, table_apart))

pub add_table_run :
    {s : Vm} {t d pt : ℕ} (l : List ℕ) (index read_write priv : ℕ)
    → Shows s t 0 d
    → d ≢ t
    → (d ≢ s.cr3) ⊎ ((index ≢ 1023) × (index ≢ 768))
    → pt < 2 ^ 32
    → add_table (window_page 0) index read_write priv (with_supply s (pt ∷ l))
      ≡ some (
        tt,
        with_supply
            (with_frames s (entered s.frames t d index pt (init_entry pt read_write priv)))
            l,
      )
unfolding add_table take
add_table_run {s} {t} {d} {pt} l index read_write priv sh dir_apart dir_entry small =
    let e = init_entry pt read_write priv in
    let sh₀ : Shows (with_supply s l) t 0 d = record {
      windowed = Windowed-with_supply l sh.windowed;
      there = sh.there;
      frame = sh.frame;
    } in
    let one = Shows-put d index e sh₀ dir_entry (inl dir_apart) in
    let two = shown-Shows pt 4 small one.windowed in
    rw
      (
        write-window_page index (omega arith) sh₀ e,
        map_to_current-shown pt 4 one.windowed,
        write-window_page 0 (omega arith) two zeros,
      )
      refl

-- the entry of the directory, as long as the frames show it
pub entered_here :
    (fs : Frames) (t d index pt : ℕ) (e : Entry)
    → d ≢ t
    → pt / 2 ^ 12 ≢ d
    → entered fs t d index pt e d index ≡ e
entered_here fs t d index pt e apart own =
    let one = put fs d index e in
    put_other (put one t 4 (init_entry pt 1 0)) (pt / 2 ^ 12) 0 zeros d index (inl own)
    ∙ put_other one t 4 (init_entry pt 1 0) d index (ground (arith, apart))
    ∙ put_here fs d index e

pub present-init_entry : (a read_write priv : ℕ) → (init_entry a read_write priv).present ≡ true
unfolding init_entry
present-init_entry a read_write priv = refl

pub page_address-init_entry :
    (a read_write priv : ℕ) → a < 2 ^ 32 → (init_entry a read_write priv).page_address ≡ a / 2 ^ 12
unfolding init_entry
page_address-init_entry a read_write priv small = omega arith
