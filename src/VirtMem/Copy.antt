-- ===== src/VirtMem/Copy.antt =====
-- `VirtMem_cpyDir`: the copy shares the kernel's tables.
use fantom_os.Base.{
  ℕ, ◌/◌, ◌^◌, ◌<◌, ◌≡◌, ◌≢◌, inl, inr, refl, ◌∙◌, some, arith, if◌then◌else◌, Bool-cases,
}
use fantom_os.VirtMem.{init_entry, shared, copy_heap, copy_dir}
use fantom_os.VirtMem.Machine.{Entry, Vm, put, zeros}
use fantom_os.VirtMem.Window.{
  Windowed, Shows, shown, with_frames, put_other, map_to_current-shown, shown-Shows, Shows-put,
  read-window_page, write-window_page, window_page,
}

-- The two directories are apart from the window, from each other, and the copy is not in force.
pub record Copyable (s : Vm) (t src dst : ℕ) : Type 0 where
  pub src_address : src < 2 ^ 32
  pub dst_address : dst < 2 ^ 32
  pub src_apart : src / 2 ^ 12 ≢ t
  pub dst_apart : dst / 2 ^ 12 ≢ t
  pub not_same : dst / 2 ^ 12 ≢ src / 2 ^ 12
  pub not_in_force : dst / 2 ^ 12 ≢ s.cr3

-- what a write through a window page leaves
abbrev pub wrote : Vm → ℕ → ℕ → Entry → Vm
wrote s f i e = with_frames s (put s.frames f i e)

-- the copy of the heap's entry
abbrev pub heap_copied : Vm → ℕ → ℕ → Vm
heap_copied s d c =
    let one = put s.frames c 769 zeros in
    with_frames s
      (if (s.frames d 769).present then put one c 769 (shared (s.frames d 769)) else one)

copy_heap_run :
    {s : Vm} {t d c : ℕ}
    → Shows s t 4 d
    → Shows s t 0 c
    → c ≢ d
    → c ≢ t
    → c ≢ s.cr3
    → copy_heap 1 769 (window_page 4) (window_page 0) s ≡ some (tt, heap_copied s d c)
unfolding copy_heap
copy_heap_run {s} {t} {d} {c} from to apart out not_in_force =
    let from' = Shows-put c 769 zeros from (inl not_in_force) (inl out) in
    let to' = Shows-put c 769 zeros to (inl not_in_force) (inl out) in
    let same = put_other s.frames c 769 zeros d 769 (inl apart) in
    elim (Bool-cases (s.frames d 769).present) [
      | inl there ↦
          rw
            (
              write-window_page 769 (omega arith) to zeros,
              read-window_page 769 (omega arith) from',
              same,
              there,
              write-window_page 769 (omega arith) to' (shared (s.frames d 769)),
            )
            refl
      | inr missing ↦
          rw
            (
              write-window_page 769 (omega arith) to zeros,
              read-window_page 769 (omega arith) from',
              same,
              missing,
            )
            refl
    ]

-- both directories in the window, and the kernel's entry copied
abbrev pub kernel_copied : Vm → ℕ → ℕ → ℕ → Vm
kernel_copied s t src dst =
    let two = shown (shown s t src 4) t dst 0 in
    wrote (wrote two (dst / 2 ^ 12) 768 zeros) (dst / 2 ^ 12) 768
      (shared (s.frames (src / 2 ^ 12) 768))

module _ {s : Vm} {t : ℕ} (src dst : ℕ) (w : Windowed s t) (c : Copyable s t src dst) where
  pub both_shown :
      Shows (shown (shown s t src 4) t dst 0) t 4 (src / 2 ^ 12)
      × Shows (shown (shown s t src 4) t dst 0) t 0 (dst / 2 ^ 12)
  both_shown =
      let one = shown-Shows src 4 c.src_address w in
      (
        Shows-put t 0 (init_entry dst 1 0) one (ground (arith, w.apart)) (ground arith),
        shown-Shows dst 0 c.dst_address one.windowed,
      )

  pub kernel_copied-Shows :
      (page f : ℕ)
      → Shows (shown (shown s t src 4) t dst 0) t page f
      → Shows (kernel_copied s t src dst) t page f
  kernel_copied-Shows page f sh =
      Shows-put (dst / 2 ^ 12) 768 (shared (s.frames (src / 2 ^ 12) 768))
        (Shows-put (dst / 2 ^ 12) 768 zeros sh (inl c.not_in_force) (inl c.dst_apart))
        (inl c.not_in_force) (inl c.dst_apart)

  pub shown_same :
      (i : ℕ)
      → (shown (shown s t src 4) t dst 0).frames (src / 2 ^ 12) i ≡ s.frames (src / 2 ^ 12) i
  shown_same i =
      put_other (put s.frames t 4 (init_entry src 1 0)) t 0 (init_entry dst 1 0) (src / 2 ^ 12) i
        (ground (arith, c.src_apart))
      ∙ put_other s.frames t 4 (init_entry src 1 0) (src / 2 ^ 12) i (ground (arith, c.src_apart))

  pub copy_dir_run :
      copy_dir src dst s
      ≡ some (tt, heap_copied (kernel_copied s t src dst) (src / 2 ^ 12) (dst / 2 ^ 12))
  unfolding copy_dir
  copy_dir_run =
      let one = shown-Shows src 4 c.src_address w in
      let (from, to) = both_shown in
      let two = shown (shown s t src 4) t dst 0 in
      let d = src / 2 ^ 12 in
      let k = dst / 2 ^ 12 in
      let from' = Shows-put k 768 zeros from (inl c.not_in_force) (inl c.dst_apart) in
      let to' = Shows-put k 768 zeros to (inl c.not_in_force) (inl c.dst_apart) in
      let same = put_other two.frames k 768 zeros d 768 (inl c.not_same) ∙ shown_same 768 in
      rw
        (
          map_to_current-shown src 4 w,
          map_to_current-shown dst 0 one.windowed,
          write-window_page 768 (omega arith) to zeros,
          read-window_page 768 (omega arith) from',
          same,
          write-window_page 768 (omega arith) to' (shared (s.frames d 768)),
        )
        (copy_heap_run (kernel_copied-Shows 4 d from) (kernel_copied-Shows 0 k to) c.not_same
          c.dst_apart c.not_in_force)
