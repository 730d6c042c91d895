-- ===== src/VirtMem/Share.antt =====
-- What a copied directory shares with its source.
use fantom_os.Base.{
  ℕ, ◌/◌, ◌^◌, ◌≡◌, ◌≢◌, ◌⊎◌, inl, inr, refl, ◌∙◌, ap, Bool, true, false, ◌||◌, arith,
  if◌then◌else◌, Bool-cases,
}
use fantom_os.VirtMem.{init_entry, dir_index, table_index, shared, copy_dir}
use fantom_os.VirtMem.Machine.{Entry, Frames, Vm, put, zeros}
use fantom_os.VirtMem.Window.{Windowed, shown, put_other, put_here, Windowed-put}
use fantom_os.VirtMem.Lookup.{lookup, table_of, Returned, in_window}
use fantom_os.VirtMem.Map.{entry_at}
use fantom_os.VirtMem.Copy.{
  Copyable, heap_copied, kernel_copied, both_shown, kernel_copied-Shows, shown_same, copy_dir_run,
}

-- the entries that a copy may change
abbrev pub copy_changes : ℕ → ℕ → ℕ → ℕ → Bool
copy_changes t k f i =
    in_window t 4 f i || (in_window t 0 f i || (entry_at k 768 f i || entry_at k 769 f i))

-- the entry of the heap in the copy
abbrev pub heap_entry : Entry → Entry
heap_entry e = if e.present then shared e else zeros

-- An address of the kernel: of its first 4 MB, if the directory has a table there, or of its heap.
abbrev pub IsKernels : Frames → ℕ → ℕ → Type 0
IsKernels fs d vaddr =
    ((dir_index vaddr ≡ 768) × ((fs d 768).present ≡ true)) ⊎ (dir_index vaddr ≡ 769)

-- Two directories lead an address to one page if their entries name one table, or none.
lookup_same :
    (fs gs : Frames) (k d vaddr : ℕ) (e' e : Entry)
    → fs k (dir_index vaddr) ≡ e'
    → gs d (dir_index vaddr) ≡ e
    → ((e'.present ≡ true) × (e.present ≡ true) × (e'.page_address ≡ e.page_address))
      ⊎ ((e'.present ≡ false) × (e.present ≡ false))
    → fs e.page_address (table_index vaddr) ≡ gs e.page_address (table_index vaddr)
    → lookup fs k vaddr ≡ lookup gs d vaddr
lookup_same fs gs k d vaddr e' e at' at (inl (there', there, page)) cell =
    rw (at', at, there', there, page, cell) refl
lookup_same fs gs k d vaddr e' e at' at (inr (missing', missing)) cell =
    rw (at', at, missing', missing) refl

heap_entry_cases :
    (e : Entry)
    → (((heap_entry e).present ≡ true)
        × (e.present ≡ true)
        × ((heap_entry e).page_address ≡ e.page_address))
      ⊎ (((heap_entry e).present ≡ false) × (e.present ≡ false))
heap_entry_cases e = elim (Bool-cases e.present) [
  | inl there ↦ inl (rw there refl, there, rw there refl)
  | inr missing ↦ inr (rw missing refl, missing)
]

module _ (s : Vm) (d k : ℕ) where
  heap_copied_other :
      (f i : ℕ) → (k ≢ f) ⊎ (769 ≢ i) → (heap_copied s d k).frames f i ≡ s.frames f i
  heap_copied_other f i away =
      let one = put_other s.frames k 769 zeros f i away in
      elim (Bool-cases (s.frames d 769).present) [
        | inl there ↦
            rw there
              (put_other (put s.frames k 769 zeros) k 769 (shared (s.frames d 769)) f i away ∙ one)
        | inr missing ↦ rw missing one
      ]

  heap_copied_here : (heap_copied s d k).frames k 769 ≡ heap_entry (s.frames d 769)
  heap_copied_here = elim (Bool-cases (s.frames d 769).present) [
    | inl there ↦ rw there (put_here (put s.frames k 769 zeros) k 769 (shared (s.frames d 769)))
    | inr missing ↦ rw missing (put_here s.frames k 769 zeros)
  ]

  heap_copied-Windowed : {t : ℕ} → Windowed s t → k ≢ s.cr3 → Windowed (heap_copied s d k) t
  heap_copied-Windowed w out =
      let one = Windowed-put k 769 zeros w (inl out) in
      elim (Bool-cases (s.frames d 769).present) [
        | inl there ↦ rw there (Windowed-put k 769 (shared (s.frames d 769)) one (inl out))
        | inr missing ↦ rw missing one
      ]

module _ {s : Vm} {t : ℕ} (src dst : ℕ) (w : Windowed s t) (c : Copyable s t src dst) where
  abbrev pub copied : Frames
  copied = (heap_copied (kernel_copied s t src dst) (src / 2 ^ 12) (dst / 2 ^ 12)).frames

  src_heap : (kernel_copied s t src dst).frames (src / 2 ^ 12) 769 ≡ s.frames (src / 2 ^ 12) 769
  src_heap =
      let k = dst / 2 ^ 12 in
      let d = src / 2 ^ 12 in
      let two = (shown (shown s t src 4) t dst 0).frames in
      put_other (put two k 768 zeros) k 768 (shared (s.frames d 768)) d 769 (inl c.not_same)
      ∙ put_other two k 768 zeros d 769 (inl c.not_same)
      ∙ shown_same src dst w c 769

  copied_heap : copied (dst / 2 ^ 12) 769 ≡ heap_entry (s.frames (src / 2 ^ 12) 769)
  copied_heap =
      heap_copied_here (kernel_copied s t src dst) (src / 2 ^ 12) (dst / 2 ^ 12)
      ∙ ap heap_entry src_heap

  copied_kernel : copied (dst / 2 ^ 12) 768 ≡ shared (s.frames (src / 2 ^ 12) 768)
  copied_kernel =
      let k = dst / 2 ^ 12 in
      let e = shared (s.frames (src / 2 ^ 12) 768) in
      let two = (shown (shown s t src 4) t dst 0).frames in
      heap_copied_other (kernel_copied s t src dst) (src / 2 ^ 12) k k 768 (ground arith)
      ∙ put_here (put two k 768 zeros) k 768 e

  pub copied_same :
      (f i : ℕ) → copy_changes t (dst / 2 ^ 12) f i ≡ false → copied f i ≡ s.frames f i
  copied_same f i differs =
      let k = dst / 2 ^ 12 in
      let e = shared (s.frames (src / 2 ^ 12) 768) in
      let two = (shown (shown s t src 4) t dst 0).frames in
      heap_copied_other (kernel_copied s t src dst) (src / 2 ^ 12) k f i (ground (arith, differs))
      ∙ put_other (put two k 768 zeros) k 768 e f i (ground (arith, differs))
      ∙ put_other two k 768 zeros f i (ground (arith, differs))
      ∙ put_other (put s.frames t 4 (init_entry src 1 0)) t 0 (init_entry dst 1 0) f i
          (ground (arith, differs))
      ∙ put_other s.frames t 4 (init_entry src 1 0) f i (ground (arith, differs))

  pub copied-Windowed :
      Windowed (heap_copied (kernel_copied s t src dst) (src / 2 ^ 12) (dst / 2 ^ 12)) t
  copied-Windowed =
      heap_copied-Windowed (kernel_copied s t src dst) (src / 2 ^ 12) (dst / 2 ^ 12)
        ((kernel_copied-Shows src dst w c 0 (dst / 2 ^ 12) (both_shown src dst w c).1).windowed)
        c.not_in_force

  shared_lookup :
      (vaddr : ℕ)
      → IsKernels s.frames (src / 2 ^ 12) vaddr
      → copy_changes t (dst / 2 ^ 12) (table_of s.frames (src / 2 ^ 12) vaddr) (table_index vaddr)
        ≡ false
      → lookup copied (dst / 2 ^ 12) vaddr ≡ lookup s.frames (src / 2 ^ 12) vaddr
  shared_lookup vaddr (inl (at, there)) apart =
      let k = dst / 2 ^ 12 in
      let d = src / 2 ^ 12 in
      let x = table_of s.frames d vaddr in
      let page : x ≡ (s.frames d 768).page_address =
        ap (λ (i : ℕ). (s.frames d i).page_address) at in
      lookup_same copied s.frames k d vaddr (shared (s.frames d 768)) (s.frames d 768)
        (ap (copied k) at ∙ copied_kernel) (ap (s.frames d) at) (inl (refl, there, refl))
        (rw page at (copied_same x (table_index vaddr) apart))
  shared_lookup vaddr (inr at) apart =
      let k = dst / 2 ^ 12 in
      let d = src / 2 ^ 12 in
      let x = table_of s.frames d vaddr in
      let page : x ≡ (s.frames d 769).page_address =
        ap (λ (i : ℕ). (s.frames d i).page_address) at in
      lookup_same copied s.frames k d vaddr (heap_entry (s.frames d 769)) (s.frames d 769)
        (ap (copied k) at ∙ copied_heap) (ap (s.frames d) at) (heap_entry_cases (s.frames d 769))
        (rw page at (copied_same x (table_index vaddr) apart))

  -- With the kernel's window set up and the two directories apart from it and from each other,
  -- the copy not in force, copying a directory leaves the copy leading an address of the kernel,
  -- of the first 4 MB if the source has a table there or of the heap, to the page to which the
  -- source leads it, if the address's entry in its table is not one that the copy changes. Only
  -- the pages 0 and 4 of the window and the copy's two entries for the kernel change.
  pub copy_dir-lookup :
      (vaddr : ℕ)
      → IsKernels s.frames (src / 2 ^ 12) vaddr
      → copy_changes t (dst / 2 ^ 12) (table_of s.frames (src / 2 ^ 12) vaddr) (table_index vaddr)
        ≡ false
      → Returned s t
          (copy_changes t (dst / 2 ^ 12))
          (λ _ s'. lookup s'.frames (dst / 2 ^ 12) vaddr ≡ lookup s.frames (src / 2 ^ 12) vaddr)
          (copy_dir src dst s)
  copy_dir-lookup vaddr kernels apart = record {
    value = tt;
    state = heap_copied (kernel_copied s t src dst) (src / 2 ^ 12) (dst / 2 ^ 12);
    returns = copy_dir_run src dst w c;
    windowed = copied-Windowed;
    same = copied_same;
    post = shared_lookup vaddr kernels apart;
  }
