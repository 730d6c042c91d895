-- ===== src/RamDisk/Scan.antt =====
-- The scan lists the files of the archive.
use fantom_os.Base.{
  ℕ, zero, suc, ◌+◌, ◌*◌, ◌%◌, ◌^◌, ◌≤◌, ◌<◌, ◌≡◌, ◌≢◌, refl, some, List, [], ◌∷◌, arith, ◌==◌,
  length, false,
}
use mathlib.Core.Option.{bind}
use fantom_os.Memory.{Mem}
use fantom_os.Tar.{size_at, get_int}
use fantom_os.Tar.Laws.{blocks, next_header-blocks}
use fantom_os.Vfs.{Node}
use fantom_os.RamDisk.{only_file_name, scan_from, scan_tar}

-- name and size of each file
abbrev pub Files : Type 0
Files = List (List ℕ × ℕ)

-- From `src` on the memory holds the bytes of a name and a NUL.
abbrev pub NameAt : Mem → ℕ → List ℕ → Type 0
NameAt m src [] = m src ≡ 0
NameAt m src (c ∷ cs) = (m src ≡ c) × (c ≢ 0) × NameAt m (src + 1) cs

-- An archive of files with names of at most 100 bytes, as far as the fields that are read go.
abbrev pub Archive : Mem → ℕ → Files → Type 0
Archive m header [] = m header ≡ 0
Archive m header ((name, size) ∷ files) =
    (name ≢ [])
    × NameAt m header name
    × (length name ≤ 100)
    × (get_int m (size_at header) 12 8 ≡ size)
    × (header + 512 * (1 + blocks size) < 2 ^ 32)
    × Archive m (header + 512 * (1 + blocks size)) files

-- the nodes of the files, numbered from `i` on
abbrev pub nodes_from : ℕ → Files → List Node
nodes_from i [] = []
nodes_from i ((name, size) ∷ files) =
    record { file_size = size; filename = name; idx = i } ∷ nodes_from (i + 1) files

only_file_name_lem :
    (f : ℕ) (m : Mem) (src : ℕ) (name : List ℕ)
    → NameAt m src name
    → length name < f
    → src + length name < 2 ^ 32
    → only_file_name f m src ≡ some name
unfolding only_file_name
only_file_name_lem zero m src name n h small = absurd (omega arith)
only_file_name_lem (suc f) m src [] n h small = ground arith
only_file_name_lem (suc f) m src (c ∷ cs) n h small =
    ground (arith, only_file_name_lem f m (src + 1) cs n.2)

pub first_byte : (m : Mem) (src : ℕ) (name : List ℕ) → name ≢ [] → NameAt m src name → m src ≢ 0
first_byte m src [] ne n = absurd (ne refl)
first_byte m src (c ∷ cs) ne n = ground arith

scan_from_lem :
    (f : ℕ) (m : Mem) (header : ℕ) (files : Files) (i : ℕ)
    → Archive m header files
    → length files + 100 < f
    → i + length files < 2 ^ 32
    → scan_from f m header i ≡ some (nodes_from i files)
unfolding scan_from mathlib.Core.Option.bind
scan_from_lem zero m header files i a h small = absurd (omega arith)
scan_from_lem (suc f) m header [] i a h small = ground arith
scan_from_lem (suc f) m header ((name, size) ∷ files) i a h small =
    let there : (m header == 0) ≡ false = ground (arith, first_byte m header name a.0 a.1) in
    let next = next_header-blocks m header size a.3 a.4 in
    let on : (header + 512 * (1 + blocks size) == 0) ≡ false = ground arith in
    let step : (i + 1) % 2 ^ 32 ≡ i + 1 = omega arith in
    rw (
      there,
      next,
      on,
      step,
      only_file_name_lem (suc f) m header name a.1 (omega arith) (omega arith),
      scan_from_lem f m (header + 512 * (1 + blocks size)) files (i + 1) a.5 (omega arith)
          (omega arith),
      a.3,
    )

-- On an archive whose names have at most 100 bytes, with fuel for its files and for one name,
-- the scan ends and lists the root and then every file once, in order, with its name, size and
-- number.
pub scan_tar-nodes :
    (fuel : ℕ) (m : Mem) (header : ℕ) (root : Node) (files : Files)
    → Archive m header files
    → length files + 100 < fuel
    → length files < 2 ^ 32
    → scan_tar fuel m header root ≡ some (root ∷ nodes_from 0 files)
unfolding scan_tar
scan_tar-nodes fuel m header root files a h small =
    rw (scan_from_lem fuel m header files 0 a h (omega arith))
