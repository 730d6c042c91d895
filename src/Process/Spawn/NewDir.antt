-- ===== src/Process/Spawn/NewDir.antt =====
-- The directory of a new process: `VirtMem_createDir` and `VirtMem_cpyDir`, with small pages.
use fantom_os.Base.{ℕ, ◌/◌, ◌^◌, ◌<◌, ◌≡◌, ◌≢◌, inl, refl, ◌∙◌, some, arith, List, ◌∷◌}
use fantom_os.VirtMem.{init_entry, create_dir, copy_dir}
use fantom_os.VirtMem.Machine.{zeros, Vm, put, take, clear_frame}
use fantom_os.VirtMem.Window.{
  Windowed, Shows, shown, with_frames, map_to_current-shown, shown-Shows, resolve-window_page,
  write-window_page, Windowed-put, window_page,
}
use fantom_os.VirtMem.Map.{with_supply, Windowed-with_supply}
use fantom_os.VirtMem.Large.{cleared}
use fantom_os.VirtMem.Copy.{Copyable, heap_copied, kernel_copied, copy_dir_run}
use fantom_os.VirtMem.Share.{copied_same, copied-Windowed}

-- The page of the new directory is apart from the directory in force and from the window.
pub record IsNewDir (s : Vm) (t dir : ℕ) : Type 0 where
  pub small : dir < 2 ^ 32
  pub not_window : dir / 2 ^ 12 ≢ t
  pub not_in_force : dir / 2 ^ 12 ≢ s.cr3

module _ (s : Vm) (t dir : ℕ) (l : List ℕ) (w : Windowed s t) (new : IsNewDir s t dir) where
  abbrev emptied : Vm
  emptied =
      let one = shown (with_supply s l) t dir 0 in
      with_frames one (cleared one.frames (dir / 2 ^ 12))

  abbrev pub created_dir : Vm
  created_dir = with_frames emptied (put emptied.frames (dir / 2 ^ 12) 1023 (init_entry dir 1 0))

  -- Clearing a frame that is neither the directory in force nor the window spares what is shown.
  emptied-Shows : Shows emptied t 0 (dir / 2 ^ 12)
  emptied-Shows =
      let sh = shown-Shows dir 0 new.small (Windowed-with_supply l w) in
      let v = sh.windowed in
      record {
        windowed = record {
          small_pages = v.small_pages;
          self_there = ground (arith, v.self_there, new.not_in_force);
          self_frame = ground (arith, v.self_frame, new.not_in_force);
          window_there = ground (arith, v.window_there, new.not_in_force);
          window_frame = ground (arith, v.window_frame, new.not_in_force);
          apart = v.apart;
        };
        there = ground (arith, sh.there, new.not_window);
        frame = ground (arith, sh.frame, new.not_window);
      }

  clear_run : clear_frame (window_page 0) (shown (with_supply s l) t dir 0) ≡ some (tt, emptied)
  unfolding clear_frame
  clear_run =
      let sh = shown-Shows dir 0 new.small (Windowed-with_supply l w) in
      rw (resolve-window_page (omega arith) sh) refl

  pub create_dir_run : s.supply ≡ dir ∷ l → create_dir 0 s ≡ some (dir, created_dir)
  unfolding create_dir take
  create_dir_run supply =
      rw
        (
          supply,
          map_to_current-shown dir 0 (Windowed-with_supply l w),
          clear_run,
          write-window_page 1023 (omega arith) emptied-Shows (init_entry dir 1 0),
        )
        refl

  pub created_dir-Windowed : Windowed created_dir t
  created_dir-Windowed =
      Windowed-put (dir / 2 ^ 12) 1023 (init_entry dir 1 0) emptied-Shows.windowed
        (inl new.not_in_force)

  pub created_dir_absent : (i : ℕ) → i ≢ 1023 → created_dir.frames (dir / 2 ^ 12) i ≡ zeros
  unfolding put
  created_dir_absent i other = ground arith

  module _ (kdir : ℕ) (small : kdir < 2 ^ 32) (out : kdir / 2 ^ 12 ≢ t)
      (apart : dir / 2 ^ 12 ≢ kdir / 2 ^ 12) where
    created_dir-Copyable : Copyable created_dir t kdir dir
    created_dir-Copyable = record {
      src_address = small;
      dst_address = new.small;
      src_apart = out;
      dst_apart = new.not_window;
      not_same = apart;
      not_in_force = new.not_in_force;
    }

    -- the state behind both calls
    abbrev pub process_dir : Vm
    process_dir = heap_copied (kernel_copied created_dir t kdir dir) (kdir / 2 ^ 12) (dir / 2 ^ 12)

    pub process_dir_run : copy_dir kdir dir created_dir ≡ some (tt, process_dir)
    process_dir_run = copy_dir_run kdir dir created_dir-Windowed created_dir-Copyable

    pub process_dir-Windowed : Windowed process_dir t
    process_dir-Windowed = copied-Windowed kdir dir created_dir-Windowed created_dir-Copyable

    -- The directory has no table but those of the kernel, and its own entry.
    pub process_dir_absent :
        (i : ℕ) → i ≢ 768 → i ≢ 769 → i ≢ 1023 → process_dir.frames (dir / 2 ^ 12) i ≡ zeros
    process_dir_absent i a b c =
        copied_same kdir dir created_dir-Windowed created_dir-Copyable (dir / 2 ^ 12) i
          (ground (arith, new.not_window))
        ∙ created_dir_absent i c

    -- Another frame but that of the window's table keeps what it holds.
    pub process_dir_other :
        (f i : ℕ) → f ≢ t → f ≢ dir / 2 ^ 12 → process_dir.frames f i ≡ s.frames f i
    unfolding put
    process_dir_other f i a b =
        copied_same kdir dir created_dir-Windowed created_dir-Copyable f i (ground (arith, a, b))
        ∙ ground (arith, a, b)
