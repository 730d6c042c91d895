-- ===== src/RamDisk/Examples.antt =====
-- The scan of an archive with a single file, and a read of three bytes of it.
use fantom_os.Base.{◌≡◌, refl, inr, [], ◌∷◌, ◌==◌, if◌then◌else◌, arith}
use fantom_os.Memory.{Mem}
use fantom_os.Tar.{get_int}
use fantom_os.Base.{◌≢◌, false, ap, length, List, ℕ}
use fantom_os.Vfs.{Node, Device, has_root}
use fantom_os.RamDisk.{read_file}
use fantom_os.RamDisk.Read.{Copied, read_file-Copied}
use fantom_os.RamDisk.Mounted.{Served, init-Served}

-- at 512 the file "a" of ten bytes
abbrev small_disk : Mem
small_disk p = if p == 512 then b'a' else if p == 636 then b'1' else if p == 637 then b'2' else 0

abbrev root : Node
root = record { file_size = 0; filename = b'C' ∷ b'/' ∷ []; idx = 0 }

abbrev file_a : Node
file_a = record { file_size = 10; filename = b'a' ∷ []; idx = 0 }

abbrev disk : Device
disk = record { mount_id = b'C'; root_node = 0; files = root ∷ file_a ∷ []; ram_addr = 512 }

read_file-Copied_example :
    Copied small_disk 1024 4096 3 (read_file 2 small_disk disk file_a 4096 3 0)
unfolding get_int fantom_os.Tar.get_int_from
read_file-Copied_example =
    read_file-Copied 2 small_disk disk file_a 4096 3 0 (10 ∷ []) (λ p. ground arith)
      (omega arith, refl, omega arith, refl) (omega arith) (omega arith) (omega arith) (omega arith)
      (omega arith) (omega arith) (inr (omega arith))

no_root : has_root 0x7000 [] ≡ false
unfolding has_root
no_root = refl

abbrev name_a : List ℕ
name_a = b'a' ∷ []

abbrev root_name : List ℕ
root_name = b'C' ∷ b'/' ∷ []

names_differ : name_a ≢ root_name
names_differ e = absurd (ground (arith, ap (λ (xs : List ℕ). length xs) e))

-- the start of the archive before the kernel's base is added to it
init-Served_example :
    Served 102 small_disk 0x40000200 0x7000 [] ((b'a' ∷ [], 10) ∷ []) 0 (b'a' ∷ []) 10 4096 3 0
unfolding get_int fantom_os.Tar.get_int_from
init-Served_example =
    init-Served 102 small_disk 0x40000200 0x7000 [] ((b'a' ∷ [], 10) ∷ []) (omega arith) no_root tt
      (ground arith, (refl, omega arith, refl), omega arith, refl, omega arith, refl) (omega arith)
      (omega arith) 0 (b'a' ∷ []) 10 4096 3 0 (λ p. ground arith) tt tt
      (omega arith, omega arith, tt) names_differ (refl, refl) (omega arith) (omega arith)
      (omega arith) (inr (omega arith))
