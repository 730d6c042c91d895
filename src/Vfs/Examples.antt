-- ===== src/Vfs/Examples.antt =====
-- The theorems on names and mounts at a device with two files.
use fantom_os.Base.{ℕ, zero, suc, ◌+◌, refl, List, [], ◌∷◌, arith}
use fantom_os.Vfs.{
  Node, Device, Mounts, name_cmp, mount, unmount, open_file, get_file_size, size_of, next_mount_id,
}
use fantom_os.Vfs.Laws.{Search, all_files, open_file-Search}
use fantom_os.Vfs.Mounts.{Mounted, mount-Mounted, Consecutive}

abbrev name_a : List ℕ
name_a = b'a' ∷ []

abbrev name_b : List ℕ
name_b = b'b' ∷ b'.' ∷ []

abbrev with_id : ℕ → Device
with_id id = record {
  mount_id = id;
  root_node = id + 0x1000;
  files =
      record { file_size = 3; filename = name_a; idx = 0 }
      ∷ record { file_size = 4; filename = name_b; idx = 1 }
      ∷ [];
  ram_addr = 0;
}

abbrev one_mount : Mounts
one_mount = with_id b'C' ∷ []

-- `n` devices, with the letters from `c` on
abbrev letters : ℕ → ℕ → Mounts
letters zero c = []
letters (suc n) c = with_id c ∷ letters n (c + 1)

mount-Mounted_example : Mounted (with_id 0) one_mount (mount (with_id 0) one_mount)
unfolding fantom_os.Vfs.has_root
mount-Mounted_example = mount-Mounted (with_id 0) one_mount (refl, tt) (omega arith) refl

consecutive : (n c : ℕ) → Consecutive c (letters n c)
consecutive zero c = tt
consecutive (suc n) c = (refl, consecutive n (c + 1))

open_file-Search_example : Search name_b (all_files one_mount) (open_file one_mount name_b)
open_file-Search_example =
    open_file-Search one_mount name_b (omega arith, omega arith, (omega arith, omega arith, tt))
      (
        (
          (omega arith, omega arith, tt),
          ((omega arith, omega arith, (omega arith, omega arith, tt)), tt),
        ),
        tt,
      )
