-- ===== src/VirtMem/Boot.antt =====
-- `VirtMem_Paging_init`: the directory that the kernel makes for itself while pages are 4 MB large.
use fantom_os.Base.{
  ℕ, suc, ◌+◌, ◌*◌, ◌/◌, ◌%◌, ◌^◌, ◌<◌, ◌≡◌, ◌≢◌, inl, inr, ◌∙◌, ap, refl, true, false, some, arith,
  ◌==◌, List, ◌∷◌, if◌then◌else◌,
}
use fantom_os.VirtMem.{init_entry, create_dir, add_table, map_page, map_kernel, enter_kdir, init}
use fantom_os.VirtMem.Machine.{Entry, zeros, Frames, Vm, put, take}
use fantom_os.VirtMem.Window.{Windowed, with_frames, put_other, put_here}
use fantom_os.VirtMem.Lookup.{lookup}
use fantom_os.VirtMem.Map.{with_supply, lookup_found}
use fantom_os.VirtMem.Large.{
  map_to_current-large, map_to_current_4-large, read-large, write-large, clear-large, cleared,
}
use fantom_os.VirtMem.MapKernel.{Filled, HasTable, map_kernel_run}
use fantom_os.VirtMem.Enter.{present-init_entry, page_address-init_entry}

-- the frames once the first page has its table at the frame `t`
abbrev first_frames : Frames → ℕ → ℕ → ℕ → Frames
first_frames fs k pt p =
    let one = put fs k 768 (init_entry pt 1 0) in
    let two = put one (pt / 2 ^ 12) 0 zeros in put two (pt / 2 ^ 12) 0 (init_entry p 1 0)

-- The address 0 asks for a page of its own.
first_page :
    (s : Vm) (kdir p pt : ℕ) (l : List ℕ)
    → s.pse_enabled ≡ true
    → s.supply ≡ p ∷ pt ∷ l
    → kdir < 0x400000
    → pt < 0x400000
    → pt / 2 ^ 12 ≢ kdir / 2 ^ 12
    → (s.frames (kdir / 2 ^ 12) 768).present ≡ false
    → map_page kdir 0xC0000000 0 1 0 s
      ≡ some (p, with_supply (with_frames s (first_frames s.frames (kdir / 2 ^ 12) pt p)) l)
unfolding map_page add_table take
first_page s kdir p pt l large supply low low' apart absent =
    let k = kdir / 2 ^ 12 in
    let t = pt / 2 ^ 12 in
    let s₀ = with_supply s (pt ∷ l) in
    let s₁ = with_supply s l in
    let one = put s.frames k 768 (init_entry pt 1 0) in
    let two = put one t 0 zeros in
    let s₂ = with_frames s₁ one in
    let s₃ = with_frames s₁ two in
    let table : t * 2 ^ 12 < 0x400000 = omega arith in
    let back : t * 2 ^ 12 / 2 ^ 12 ≡ t = omega arith in
    let dir_same : two k 768 ≡ init_entry pt 1 0 =
      put_other one t 0 zeros k 768 (inl apart) ∙ put_here s.frames k 768 _ in
    let frame =
      ap (λ (a : Entry). a.page_address) dir_same ∙ page_address-init_entry pt 1 0 (omega arith) in
    rw
      (
        supply,
        map_to_current-large s₀ large kdir low,
        read-large s₀ large kdir low 768,
        absent,
        write-large s₁ large kdir low 768 (init_entry pt 1 0),
        map_to_current_4-large s₂ large pt low',
        write-large s₂ large pt low' 0 zeros,
        read-large s₃ large kdir low 768,
        frame,
        map_to_current-large s₃ large (t * 2 ^ 12) table,
        write-large s₃ large (t * 2 ^ 12) table 0 (init_entry p 1 0),
        back,
      )
      refl

-- the state that `VirtMem_createDir` leaves
abbrev fresh : Vm → ℕ → List ℕ → Vm
fresh s kdir l =
    let fs = put (cleared s.frames (kdir / 2 ^ 12)) (kdir / 2 ^ 12) 1023 (init_entry kdir 1 0) in
    record s { frames = fs; pse_enabled = true; supply = l }

create_dir-large :
    (s : Vm) (kdir : ℕ) (l : List ℕ)
    → s.pse_enabled ≡ true
    → s.supply ≡ kdir ∷ l
    → kdir < 0x400000
    → create_dir 0 s ≡ some (kdir, fresh s kdir l)
unfolding create_dir take
create_dir-large s kdir l large supply low =
    let s₁ = with_supply s l in
    let s₂ = with_frames s₁ (cleared s.frames (kdir / 2 ^ 12)) in
    rw
      (
        supply,
        map_to_current-large s₁ large kdir low,
        clear-large s₁ kdir large low,
        write-large s₂ large kdir low 1023 (init_entry kdir 1 0),
        large,
      )
      refl

module _ (fs : Frames) (kdir p pt : ℕ) (apart : pt / 2 ^ 12 ≢ kdir / 2 ^ 12) where
  abbrev start : Frames
  start = put (cleared fs (kdir / 2 ^ 12)) (kdir / 2 ^ 12) 1023 (init_entry kdir 1 0)

  abbrev booted : Frames
  booted = first_frames start (kdir / 2 ^ 12) pt p

  start_absent : (i : ℕ) → i ≢ 1023 → start (kdir / 2 ^ 12) i ≡ zeros
  unfolding put
  start_absent i other = ground (arith)

  booted_dir :
      (i : ℕ)
      → booted (kdir / 2 ^ 12) i ≡ (if 768 == i then init_entry pt 1 0 else start (kdir / 2 ^ 12) i)
  unfolding put
  booted_dir i = ground (arith, apart)

  booted_elsewhere : (f i : ℕ) → f ≢ kdir / 2 ^ 12 → f ≢ pt / 2 ^ 12 → booted f i ≡ fs f i
  unfolding put
  booted_elsewhere f i a b = ground arith

-- What the boot leaves: the window set up, each of the first 4 MB of addresses of the kernel at the
-- page of its number, but the first, and no other table.
pub record Ready (s s' : Vm) (kdir p pt : ℕ) (l : List ℕ) : Type 0 where
  pub windowed : Windowed s' (pt / 2 ^ 12)
  pub in_force : s'.cr3 ≡ kdir / 2 ^ 12
  pub supply : s'.supply ≡ l
  pub identity :
      (j : ℕ)
      → 0 < j
      → j < 1024
      → lookup s'.frames (kdir / 2 ^ 12) (0xC0000000 + j * 4096) ≡ j * 4096
  pub first : lookup s'.frames (kdir / 2 ^ 12) 0xC0000000 ≡ p / 2 ^ 12 * 2 ^ 12
  pub no_other : (i : ℕ) → i ≢ 768 → i ≢ 1023 → (s'.frames (kdir / 2 ^ 12) i).present ≡ false
  pub same : (f i : ℕ) → f ≢ kdir / 2 ^ 12 → f ≢ pt / 2 ^ 12 → s'.frames f i ≡ s.frames f i

module _ (s₁ s s' : Vm) (kdir p pt : ℕ) (l : List ℕ) (apart : pt / 2 ^ 12 ≢ kdir / 2 ^ 12)
    (low : kdir < 0x400000) (low' : pt < 0x400000) (small : p < 2 ^ 32)
    (f : Filled
      (with_supply (with_frames s₁ (booted s.frames kdir p pt apart)) l)
      s'
      (pt / 2 ^ 12)
      1
      1023) where
  dir_768 : s'.frames (kdir / 2 ^ 12) 768 ≡ init_entry pt 1 0
  dir_768 =
      f.same (kdir / 2 ^ 12) 768 (inl (ground (arith, apart)))
      ∙ booted_dir s.frames kdir p pt apart 768

  dir_1023 : s'.frames (kdir / 2 ^ 12) 1023 ≡ init_entry kdir 1 0
  dir_1023 =
      f.same (kdir / 2 ^ 12) 1023 (inl (ground (arith, apart)))
      ∙ booted_dir s.frames kdir p pt apart 1023
      ∙ put_here (cleared s.frames (kdir / 2 ^ 12)) (kdir / 2 ^ 12) 1023 _

  dir_other : (i : ℕ) → i ≢ 768 → i ≢ 1023 → s'.frames (kdir / 2 ^ 12) i ≡ zeros
  dir_other i a b =
      let test : (768 == i) ≡ false = ground arith in
      f.same (kdir / 2 ^ 12) i (inl (ground (arith, apart)))
      ∙ booted_dir s.frames kdir p pt apart i
      ∙ rw test (start_absent s.frames kdir p pt apart i b)

  leads :
      (j q : ℕ)
      → j < 1024
      → q < 2 ^ 32
      → s'.frames (pt / 2 ^ 12) j ≡ init_entry q 1 0
      → lookup s'.frames (kdir / 2 ^ 12) (0xC0000000 + j * 4096) ≡ q / 2 ^ 12 * 2 ^ 12
  leads j q lt fit e =
      let vaddr = 0xC0000000 + j * 4096 in
      let d : vaddr / 2 ^ 22 ≡ 768 = omega arith in
      let x : vaddr / 2 ^ 12 % 1024 ≡ j = omega arith in
      lookup_found s'.frames (kdir / 2 ^ 12) vaddr q 1 0 (init_entry pt 1 0) (rw d dir_768)
        (present-init_entry pt 1 0) (rw (page_address-init_entry pt 1 0 (omega arith), x) e) fit

  booted-Ready : Ready s (record s' { cr3 = kdir / 2 ^ 12; pse_enabled = false }) kdir p pt l
  booted-Ready = record {
    windowed = record {
      small_pages = refl;
      self_there = rw dir_1023 (present-init_entry kdir 1 0);
      self_frame = rw dir_1023 (page_address-init_entry kdir 1 0 (omega arith));
      window_there = rw dir_768 (present-init_entry pt 1 0);
      window_frame = rw dir_768 (page_address-init_entry pt 1 0 (omega arith));
      apart = apart;
    };
    in_force = refl;
    supply = f.supply;
    identity = λ j pos lt.
        leads j (j * 4096) lt (omega arith) (f.mapped j (omega arith) (omega arith)) ∙ omega arith;
    first =
        leads 0 p (omega arith) small
          (f.same (pt / 2 ^ 12) 0 (inr (omega arith)) ∙ put_here _ (pt / 2 ^ 12) 0 _);
    no_other = λ i a b. rw (dir_other i a b) refl;
    same = λ g i a b. f.same g i (inl b) ∙ booted_elsewhere s.frames kdir p pt apart g i a b;
  }

map_kernel_whole :
    (n kdir p : ℕ) (s s₂ s₃ : Vm)
    → map_page kdir 0xC0000000 0 1 0 s ≡ some (p, s₂)
    → map_kernel n kdir (0xC0000000 + 1 * 4096) s₂ ≡ some (tt, s₃)
    → map_kernel (suc n) kdir 0xC0000000 s ≡ some (tt, s₃)
unfolding map_kernel
map_kernel_whole n kdir p s s₂ s₃ page rest = rw page rest

-- With a directory, a page and a table to come, the directory and the table below 4 MB and in
-- different frames, the start of paging returns the directory, puts it in force, and leaves the
-- kernel's window set up: each page of the kernel's first 4 MB but the first leads to the page
-- of its number, the first to a page that was allocated for it, every other entry of the
-- directory but its own is absent, and no other frame changes.
pub init-Ready :
    (s : Vm) (kdir p pt : ℕ) (l : List ℕ)
    → s.supply ≡ kdir ∷ p ∷ pt ∷ l
    → kdir < 0x400000
    → pt < 0x400000
    → p < 2 ^ 32
    → pt / 2 ^ 12 ≢ kdir / 2 ^ 12
    → (s' : Vm) × (init s ≡ some (kdir, s')) × Ready s s' kdir p pt l
unfolding init enter_kdir
init-Ready s kdir p pt l supply low low' small apart =
    let k = kdir / 2 ^ 12 in
    let t = pt / 2 ^ 12 in
    let s₀ : Vm = record s { pse_enabled = true } in
    let s₁ = fresh s₀ kdir (p ∷ pt ∷ l) in
    let absent =
      ap (λ (e : Entry). e.present) (start_absent s.frames kdir p pt apart 768 (ground arith)) in
    let page = first_page s₁ kdir p pt l refl refl low low' apart absent in
    let s₂ = with_supply (with_frames s₁ (booted s.frames kdir p pt apart)) l in
    let dir = booted_dir s.frames kdir p pt apart 768 in
    let h : HasTable s₂ kdir t = record {
      there = ap (λ (e : Entry). e.present) dir ∙ present-init_entry pt 1 0;
      frame = ap (λ (e : Entry). e.page_address) dir ∙ page_address-init_entry pt 1 0 (omega arith);
    } in
    let rest =
      map_kernel_run 1023 s₂ kdir t 1 refl low (omega arith) apart h (omega arith) (omega arith) in
    let all : map_kernel 1024 kdir 0xC0000000 s₁ ≡ some (tt, rest.0) =
      map_kernel_whole 1023 kdir p s₁ s₂ (rest.0) page rest.1.returns in
    let made = create_dir-large s₀ kdir (p ∷ pt ∷ l) refl supply low in
    (
      record (rest.0) { cr3 = k; pse_enabled = false },
      rw (made, all) refl,
      booted-Ready s₁ s (rest.0) kdir p pt l apart low low' small (rest.1.filled),
    )
