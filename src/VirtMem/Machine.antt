-- ===== src/VirtMem/Machine.antt =====
-- The memory that holds directories and tables, and how the processor reaches it.
use fantom_os.Base.{
  ℕ, ◌-◌, ◌/◌, ◌%◌, ◌^◌, ◌+◌, Bool, false, ◌&&◌, List, [], ◌∷◌, Option, none, some, ltb, leb, ◌==◌,
  if◌then◌else◌, kbase_vaddress,
}

-- `page_table_entry_t` and `page_dir_entry_t`: the fields that the source names, and the other bits
pub record Entry : Type 0 where
  pub present : Bool
  pub read_write_flag : ℕ
  pub mode_flag : ℕ
  pub page_address : ℕ
  pub others : ℕ

abbrev pub zeros : Entry
zeros = record { present = false; read_write_flag = 0; mode_flag = 0; page_address = 0; others = 0 }

-- the 1024 entries of each page frame
abbrev pub Frames : Type 0
Frames = ℕ → ℕ → Entry

-- `supply` is what `PhysMem_allocate` will return, in order, and `returned` what `PhysMem_free` got.
pub record Vm : Type 0 where
  pub frames : Frames
  pub cr3 : ℕ
  pub pse_enabled : Bool
  pub supply : List ℕ
  pub returned : List ℕ

-- `none` is a panic or a page fault.
abbrev pub Run : Type 0 → Type 0
Run A = Vm → Option (A × Vm)

module _ {A : Type 0} where
  abbrev pub pure : A → Run A
  pure a s = some (a, s)

  abbrev pub no_result : Run A
  no_result s = none

module _ {A B : Type 0} where
  abbrev pub chain : Option (A × Vm) → (A → Run B) → Option (B × Vm)
  chain none k = none
  chain (some (a, s)) k = k a s

  infixl 5 ◌>>=◌ ◌>>◌
  abbrev pub ◌>>=◌ : Run A → (A → Run B) → Run B
  r >>= k = λ s. chain (r s) k

  abbrev pub ◌>>◌ : Run A → Run B → Run B
  r >> q = r >>= λ _. q

-- The frame that a virtual address lies in. With 4 MB pages only the kernel's window is mapped; with
-- small pages the processor walks the directory in force.
unfoldable pub resolve : Vm → ℕ → Option ℕ
resolve s vaddr =
    let e = s.frames s.cr3 (vaddr / 2 ^ 22) in
    let t = s.frames e.page_address (vaddr / 2 ^ 12 % 1024) in
    if s.pse_enabled
    then (if leb kbase_vaddress vaddr && ltb vaddr (kbase_vaddress + 2 ^ 22)
        then some ((vaddr - kbase_vaddress) / 2 ^ 12)
        else none)
    else if e.present && t.present
    then some t.page_address
    else none

unfoldable pub put : Frames → ℕ → ℕ → Entry → Frames
put fs f i e g j = if (f == g) && (i == j) then e else fs g j

abbrev pub at_frame : {A : Type 0} → Option ℕ → (ℕ → Option A) → Option A
at_frame none k = none
at_frame (some f) k = k f

-- an entry of the table or directory that lies at a virtual address
unfoldable pub read_entry : ℕ → ℕ → Run Entry
read_entry vaddr i s = at_frame (resolve s vaddr) λ f. some (s.frames f i, s)

unfoldable pub write_entry : ℕ → ℕ → Entry → Run (Unit {0})
write_entry vaddr i e s =
    at_frame (resolve s vaddr) λ f. some (tt, record s { frames = put s.frames f i e })

-- `memset` of a whole directory
unfoldable pub clear_frame : ℕ → Run (Unit {0})
clear_frame vaddr s =
    at_frame (resolve s vaddr)
      λ f. some (tt, record s { frames = λ g j. if f == g then zeros else s.frames g j })

abbrev pub take_from : Vm → List ℕ → Option (ℕ × Vm)
take_from s [] = none
take_from s (p ∷ later) = some (p, record s { supply = later })

-- `PhysMem_allocate`, which panics when no page is left, and `PhysMem_free`
unfoldable pub take : Run ℕ
take s = take_from s s.supply

unfoldable pub give : ℕ → Run (Unit {0})
give p s = some (tt, record s { returned = p ∷ s.returned })
